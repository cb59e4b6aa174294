-- ===== src/Redis/Sequences.antt =====
-- What the conditional writes of connectors/redis-dynamodb/connector.go promise of previews, with any
-- number of clients at work on the table.
use mathlib.Core.Path.{subst}
use mathlib.Core.Option.{some-injective}
use go_temporal_ai_sdk.Prelude.{
  ℤ, ltb_ℤ, String, ◌≡◌, refl, sym, ap, ◌∙◌, ◌⊎◌, inl, inr, true, Option, none, some, List,
  lookup-insert,
}
use go_temporal_ai_sdk.Updates.Types.{event_base}
use go_temporal_ai_sdk.Redis.Options.{
  Options, partition_key_name, preview_stream_key_name, preview_updated_at_key_name,
}
use go_temporal_ai_sdk.Redis.Item.{Item, clean_map, lookup-clean_map, int_field, number_of}
use go_temporal_ai_sdk.Redis.Prog.{Key, StreamRef, Encoding, Prog, Time}
use go_temporal_ai_sdk.Redis.Preview.{
  PreviewWrite, preview_key, preview_item, preview_condition, acceptance,
}
use go_temporal_ai_sdk.Redis.Table.{Table, Conditions, Reaches, attribute, set_attributes}
use go_temporal_ai_sdk.Redis.Guard.{Reaches-Later}
use go_temporal_ai_sdk.Redis.Writes.{WritesOk}
use go_temporal_ai_sdk.Redis.Methods.{method-Guarded}
use go_temporal_ai_sdk.Redis.Kinds.{
  first_code, preview_code, record_code, event_code, terminal_code, clash,
}
use go_temporal_ai_sdk.Redis.Growth.{Apart, ltb_ℤ-trans, number_field}

abbrev pub sequence_of : Option Item → Option ℤ
sequence_of item = int_field item "sequence"

-- A sequence that is the same or larger.
abbrev pub Advanced : ℤ → Option Item → Type 0
Advanced n new = (n' : ℤ) × (sequence_of new ≡ some n') × ((ltb_ℤ n n' ≡ true) ⊎ (n ≡ n'))

abbrev Advances : Key → Option Item → Option Item → Type 0
Advances k old new = first_code k.id ≡ 112 → (n : ℤ) → sequence_of old ≡ some n → Advanced n new

Advances-trans : (k : Key) (i j l : Option Item) → Advances k i j → Advances k j l → Advances k i l
Advances-trans k i j l f g kind n h =
    let (n', h', step) = f kind n h in
    let (n'', h'', step') = g kind n' h' in (n'', h'', joined n n' n'' step step')
  where
    joined :
        (a b c : ℤ)
        → (ltb_ℤ a b ≡ true) ⊎ (a ≡ b)
        → (ltb_ℤ b c ≡ true) ⊎ (b ≡ c)
        → (ltb_ℤ a c ≡ true) ⊎ (a ≡ c)
    joined a b c (inl p) (inl q) = inl (ltb_ℤ-trans a b c p q)
    joined a b c (inl p) (inr e) = inl (subst (λ x. ltb_ℤ a x ≡ true) e p)
    joined a b c (inr e) (inl q) = inl (subst (λ x. ltb_ℤ x c ≡ true) (sym e) q)
    joined a b c (inr e) (inr e') = inr (e ∙ e')

-- The configured names of two attributes are not the one that the condition reads.
pub record PreviewNamesApart (o : Options) : Type 0 where
  pub stream_apart : Apart (preview_stream_key_name o) "sequence"
  pub time_apart : Apart (preview_updated_at_key_name o) "sequence"

no_sequence :
    {A : Type 0} {n : ℤ} (i : Option Item)
    → attribute i "sequence" ≡ none
    → sequence_of i ≡ some n
    → A
unfolding int_field
no_sequence none a h = cc h
no_sequence (some item) a h = cc (sym (ap number_of a) ∙ h)

acceptance-keeps :
    (o : Options) (now later : Time) (old : Option Item) (n : ℤ)
    → sequence_of old ≡ some n
    → sequence_of (some (set_attributes (acceptance o now later) old)) ≡ some n
unfolding int_field
acceptance-keeps o now later none n h = cc h
acceptance-keeps o now later (some item) n h = simp (lookup-insert) h

module _ (o : Options) (enc : Encoding) (dynamo : Conditions (partition_key_name o))
    (names : PreviewNamesApart o) where
  saved_sequence :
      (ref : StreamRef) (key : Key) (p : PreviewWrite) (now : Time)
      → sequence_of (some (clean_map (preview_item o ref key p now))) ≡ some p.sequence
  unfolding int_field preview_item
  saved_sequence ref key p now =
      simp (lookup-clean_map, lookup-insert, names.stream_apart, names.time_apart)

  preview-Advanced :
      (p : PreviewWrite) (old new : Option Item) (n : ℤ)
      → sequence_of new ≡ some p.sequence
      → dynamo.holds (preview_condition p.sequence p.status) old ≡ true
      → sequence_of old ≡ some n
      → Advanced n new
  preview-Advanced p old new n s c h = elim (dynamo.disjunct _ _ old c) [
    | inl none_there ↦ no_sequence old (dynamo.absent "sequence" old none_there) h
    | inr c' ↦ elim (dynamo.disjunct _ _ old c') [
      | inl newer ↦
          let (m, at, smaller) =
            dynamo.smaller "sequence" p.sequence old (dynamo.conjuncts _ _ old newer).0 in
          (
            p.sequence,
            s,
            inl (
                subst (λ x. ltb_ℤ x p.sequence ≡ true)
                  (some-injective _ _ (sym (number_field old "sequence" m at) ∙ h)) smaller),
          )
      | inr again ↦
          let at = dynamo.equal "sequence" _ old (dynamo.conjuncts _ _ old again).0 in
          (
            p.sequence,
            s,
            inr (some-injective _ _ (sym h ∙ number_field old "sequence" p.sequence at)),
          )
    ]
  ]

  writes-Advances : WritesOk o enc dynamo Advances
  writes-Advances = record {
    previews =
        λ ref p now old c kind n h. preview-Advanced p old _ n (saved_sequence ref _ p now) c h;
    acceptances =
        λ s a now later old c kind n h. (n, acceptance-keeps o now later old n h, inr refl);
    records = λ ref e hash old c kind.
        clash 114 112 refl (record_code o enc e.base.stream_id e.upserted.record_id) kind;
    events = λ ref e cursor now old c kind.
        clash 101 112 refl (event_code o (event_base e).stream_id (event_base e).event_id) kind;
    terminals =
        λ ref e old c kind. clash 116 112 refl (terminal_code o (event_base e).stream_id) kind;
  }

  -- Any number of clients call the methods of the connector on one table that evaluates conditions as
  -- DynamoDB documents; their calls interleave in any order, fail, or lose their answer. Then a
  -- preview whose item has a sequence number keeps one, and the number never goes back. The configured
  -- names of attributes are assumed to differ from "sequence".
  pub preview_sequences_advance :
      {t t' : Table} {running : List (Prog (Unit {0}))}
      → Reaches o enc dynamo t t' running
      → (stream_id attempt_id : String) (n : ℤ)
      → sequence_of (t (preview_key o stream_id attempt_id)) ≡ some n
      → Advanced n (t' (preview_key o stream_id attempt_id))
  preview_sequences_advance reached stream_id attempt_id n h =
      (Reaches-Later dynamo Advances (λ k i kind m e. (m, e, inr refl)) Advances-trans
          (method-Guarded o enc dynamo Advances writes-Advances) reached).1
        (preview_key o stream_id attempt_id) (preview_code o stream_id attempt_id) n h
