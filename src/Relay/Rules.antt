-- ===== src/Relay/Rules.antt =====
-- How a property of the relay and its world is carried through Accept and complete: once it is shown
-- for the steps that touch the connector, the rules here give it for the whole methods.
-- `Q e r w` is said of an answer; of a running method it is `Q none r w`.
use mathlib.Core.Path.{subst}
use go_temporal_ai_sdk.Prelude.{
  String, ◌≡◌, refl, true, false, inl, inr, Bool-cases, Option, none, some, List, [], ◌∷◌, ◌==◌,
  eq_iff, lookup, insert, lookup-insert, arith,
}
use go_temporal_ai_sdk.Updates.Types.{PreviewOutcome, Lane}
use go_temporal_ai_sdk.Updates.Errors.{Err}
use go_temporal_ai_sdk.Relay.Part.{StreamPart, PartMeta}
use go_temporal_ai_sdk.Relay.Classify.{classify_part, merge_scope}
use go_temporal_ai_sdk.Relay.State.{Relay, PreviewState, enabled}
use go_temporal_ai_sdk.Relay.Preview.{attempt_key, preview_ref_for}
use go_temporal_ai_sdk.Relay.Accept.{
  Answer, Ensured, ready, stopped, begin_attempt, ensure_found, ensure_preview, checkpoint,
  accept_into, accept_ensured, accept_classified, accept,
}
use go_temporal_ai_sdk.Relay.Complete.{
  Progress, end_attempt, end_found, complete_checkpointed, complete_found, complete_one, proceed,
  complete_loop, complete, sort_strings, keys,
}

-- A property of every state in the map.
abbrev pub Each {ℓ} : (PreviewState → Type ℓ) → List (String × PreviewState) → Type ℓ
Each P m = (k : String) (s : PreviewState) → lookup k m ≡ some s → P s

pub Each-insert {ℓ} :
    (P : PreviewState → Type ℓ) (k : String) (v : PreviewState) (m : List (String × PreviewState))
    → Each P m
    → P v
    → Each P (insert k v m)
Each-insert P k v m h hv j s p = elim (Bool-cases (k == j)) [
  | inl e ↦ subst P (ground (arith, lookup-insert k j v m)) hv
  | inr e ↦ h j s (ground (arith, lookup-insert k j v m))
]

pub lookup-insert_self :
    (k : String) (v : PreviewState) (m : List (String × PreviewState))
    → lookup k (insert k v m) ≡ some v
lookup-insert_self k v m = ground (arith, lookup-insert k k v m, eq_iff k k)

module _ {ℓ} {W : Type 0} (Q : Option Err → Relay W → W → Type ℓ) where
  abbrev pub EnsuredHolds : Ensured × Relay W × W → Type ℓ
  EnsuredHolds (ready k s, r, w) = (lookup k r.attempts ≡ some s) × Q none r w
  EnsuredHolds (stopped e, r, w) = Q e r w

  abbrev pub Holds : Answer W → Type ℓ
  Holds x = Q x.0 x.1 x.2

  abbrev pub ProgressHolds : Progress W → Type ℓ
  ProgressHolds (true, e, r, w) = Q none r w
  ProgressHolds (false, e, r, w) = Q e r w

-- Accept of one part. `M` is what is known of the part's lane and meta after classifyPart.
module _ {ℓ κ} {W : Type 0} (part : StreamPart) (Q : Option Err → Relay W → W → Type ℓ)
    (M : Lane → PartMeta → Type κ)
    (classifies : (r : Relay W) (w : W) (lane : Lane) (found : PartMeta)
      → Q none r w
      → classify_part r.options.lane part ≡ some (lane, found)
      → M lane (record found { scope = merge_scope r.options.scope found.scope }))
    (begins : (r : Relay W) (lane : Lane) (meta : PartMeta) (w : W)
      → M lane meta
      → Q none r w
      → EnsuredHolds Q
          (begin_attempt r (attempt_key lane meta) (preview_ref_for r.options lane meta) w))
    (takes : (r : Relay W) (k : String) (s : PreviewState) (lane : Lane) (meta : PartMeta) (w : W)
      → M lane meta
      → lookup k r.attempts ≡ some s
      → Q none r w
      → Holds Q (accept_into r k s part meta w)) where
  ensure_found-Holds :
      (r : Relay W) (lane : Lane) (meta : PartMeta) (w : W) (found : Option PreviewState)
      → lookup (attempt_key lane meta) r.attempts ≡ found
      → M lane meta
      → Q none r w
      → EnsuredHolds Q
          (ensure_found r (attempt_key lane meta) (preview_ref_for r.options lane meta) w found)
  unfolding ensure_found
  ensure_found-Holds r lane meta w none e m h = begins r lane meta w m h
  ensure_found-Holds r lane meta w (some s) e m h = (e, h)

  ensure_preview-Holds :
      (r : Relay W) (lane : Lane) (meta : PartMeta) (w : W)
      → M lane meta
      → Q none r w
      → EnsuredHolds Q (ensure_preview r lane meta w)
  unfolding ensure_preview
  ensure_preview-Holds r lane meta w m h = ensure_found-Holds r lane meta w _ refl m h

  accept_ensured-Holds :
      (lane : Lane) (meta : PartMeta) (x : Ensured × Relay W × W)
      → M lane meta
      → EnsuredHolds Q x
      → Holds Q (accept_ensured part meta x)
  unfolding accept_ensured
  accept_ensured-Holds lane meta (ready k s, r, w) m h = takes r k s lane meta w m h.0 h.1
  accept_ensured-Holds lane meta (stopped e, r, w) m h = h

  accept_classified-Holds :
      (r : Relay W) (w : W) (c : Option (Lane × PartMeta))
      → classify_part r.options.lane part ≡ c
      → Q none r w
      → Holds Q (accept_classified r part w c)
  unfolding accept_classified
  accept_classified-Holds r w none e h = h
  accept_classified-Holds r w (some (lane, found)) e h =
      let m = classifies r w lane found h e in
      accept_ensured-Holds lane _ _ m (ensure_preview-Holds r lane _ w m h)

  pub accept-Holds : (r : Relay W) (w : W) → Q none r w → Holds Q (accept r part w)
  unfolding accept
  accept-Holds r w h = elim (Bool-cases (enabled r)) [
    | inl on ↦ rw on (accept_classified-Holds r w (classify_part r.options.lane part) refl h)
    | inr off ↦ rw off h
  ]

-- complete, with the checkpoint and the end of each state that has not ended.
module _ {ℓ} {W : Type 0} (outcome : PreviewOutcome) (reason : String)
    (Q : Option Err → Relay W → W → Type ℓ)
    (checkpoints : (r : Relay W) (k : String) (s : PreviewState) (w : W)
      → lookup k r.attempts ≡ some s
      → Q none r w
      → Holds Q (checkpoint r k s w))
    (ends : (r : Relay W) (k : String) (s : PreviewState) (w : W)
      → lookup k r.attempts ≡ some s
      → Q none r w
      → ProgressHolds Q (end_attempt r k s outcome reason w)) where
  end_found-Holds :
      (r : Relay W) (k : String) (w : W) (found : Option PreviewState)
      → lookup k r.attempts ≡ found
      → Q none r w
      → ProgressHolds Q (end_found r k outcome reason w found)
  unfolding end_found
  end_found-Holds r k w none e h = h
  end_found-Holds r k w (some s) e h = ends r k s w e h

  complete_checkpointed-Holds :
      (k : String) (x : Answer W)
      → Holds Q x
      → ProgressHolds Q (complete_checkpointed k outcome reason x)
  unfolding complete_checkpointed
  complete_checkpointed-Holds k (some e, r, w) h = h
  complete_checkpointed-Holds k (none, r, w) h = end_found-Holds r k w (lookup k r.attempts) refl h

  complete_found-Holds :
      (r : Relay W) (k : String) (w : W) (found : Option PreviewState)
      → lookup k r.attempts ≡ found
      → Q none r w
      → ProgressHolds Q (complete_found r k outcome reason w found)
  unfolding complete_found
  complete_found-Holds r k w none e h = h
  complete_found-Holds r k w (some s) e h = elim (Bool-cases s.ended) [
    | inl done ↦ rw done h
    | inr live ↦ simp live (complete_checkpointed-Holds k _ (checkpoints r k s w e h))
  ]

  proceed-Holds :
      (next : Relay W → W → Answer W)
      → ((r : Relay W) (w : W) → Q none r w → Holds Q (next r w))
      → (x : Progress W) → ProgressHolds Q x
      → Holds Q (proceed next x)
  unfolding proceed
  proceed-Holds next ih (true, e, r, w) h = ih r w h
  proceed-Holds next ih (false, e, r, w) h = h

  complete_loop-Holds :
      (ks : List String) (r : Relay W) (w : W)
      → Q none r w
      → Holds Q (complete_loop ks outcome reason r w)
  unfolding complete_loop complete_one
  complete_loop-Holds [] r w h = h
  complete_loop-Holds (k ∷ ks) r w h =
      proceed-Holds _ (complete_loop-Holds ks) _
        (complete_found-Holds r k w (lookup k r.attempts) refl h)

  pub complete-Holds : (r : Relay W) (w : W) → Q none r w → Holds Q (complete r outcome reason w)
  unfolding complete
  complete-Holds r w h = elim (Bool-cases (enabled r)) [
    | inl on ↦ rw on (complete_loop-Holds (sort_strings (keys r.attempts)) r w h)
    | inr off ↦ rw off h
  ]

-- The same with an exception for one key, and what an insertion at that key makes of it.
abbrev pub EachBut {ℓ} : String → (PreviewState → Type ℓ) → List (String × PreviewState) → Type ℓ
EachBut k P m = (j : String) (s : PreviewState) → lookup j m ≡ some s → (k == j) ≡ false → P s

pub EachBut-insert {ℓ} :
    (P : PreviewState → Type ℓ) (k : String) (v : PreviewState) (m : List (String × PreviewState))
    → EachBut k P m
    → EachBut k P (insert k v m)
EachBut-insert P k v m h j s p e = h j s (ground (arith, lookup-insert k j v m)) e

pub Each-insert_but {ℓ} :
    (P : PreviewState → Type ℓ) (k : String) (v : PreviewState) (m : List (String × PreviewState))
    → EachBut k P m
    → P v
    → Each P (insert k v m)
Each-insert_but P k v m h hv j s p = elim (Bool-cases (k == j)) [
  | inl e ↦ subst P (ground (arith, lookup-insert k j v m)) hv
  | inr e ↦ h j s (ground (arith, lookup-insert k j v m)) e
]

pub Each-of_but {ℓ} :
    (P : PreviewState → Type ℓ) (k : String) {v : PreviewState} (m : List (String × PreviewState))
    → EachBut k P m
    → lookup k m ≡ some v
    → P v
    → Each P m
Each-of_but P k {v} m h found hv j s p = elim (Bool-cases (k == j)) [
  | inl e ↦ subst P (ground (arith, eq_iff k j)) hv
  | inr e ↦ h j s p e
]

pub Each-nil {ℓ} : (P : PreviewState → Type ℓ) → Each P []
unfolding lookup
Each-nil P k s p = cc
