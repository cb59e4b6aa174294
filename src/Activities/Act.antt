-- ===== src/Activities/Act.antt =====
-- The tool activity as a program over the calls it makes: a tool's approval rule and its function, and the
-- store of artifacts.
use mathlib.Core.List.{Memᴰ}
use mathlib.Core.Path.{subst}
use go_temporal_ai_sdk.Prelude.{
  ℕ, suc, ℤ, String, ◌≡◌, refl, sym, ap, Bool, Option, List, [], ◌∷◌, All,
}
use go_temporal_ai_sdk.Updates.Types.{Value}
use go_temporal_ai_sdk.Agents.Types.{Metadata}
use go_temporal_ai_sdk.Agents.Flow.{Failure, Answer, ok, err}

-- ai.ToolCall
pub record ToolCall : Type 0 where
  pub tool_call_id : String
  pub tool_name : String
  pub input : Option Value
  pub dynamic : Bool
  pub tool_metadata : Metadata
  pub provider_metadata : Metadata

pub record ArtifactRef : Type 0 where
  pub artifact_id : String
  pub kind : String
  pub original_bytes : ℤ
  pub content_type : String
  pub sha256 : String

pub record ArtifactWrite : Type 0 where
  pub workflow_id : String
  pub run_id : String
  pub tool_call_id : String
  pub tool_name : String
  pub kind : String
  pub sha256 : String
  pub content_type : String
  pub original_bytes : ℤ
  pub preview : String
  pub contents : String
  pub metadata : Metadata

-- A decision of ai.ResolveToolApproval: its type is ApprovalDecisionDenied, ai.ApprovalBlocksToolExecution
-- holds of it, and its reason.
pub record Decision : Type 0 where
  pub denied : Bool
  pub blocks : Bool
  pub reason : String

-- What a tool's function returns: its output, and its error.
pub record Output : Type 0 where
  pub output : Option Value
  pub error : Option Failure

pub data Call : Type 0 where
  resolve_approval : ToolCall → Call
  execute : ToolCall → Option Value → Call
  put_artifact : ArtifactWrite → Call

abbrev pub Reply : Call → Type 0
Reply (resolve_approval c) = Answer Decision
Reply (execute c context) = Output
Reply (put_artifact w) = Answer (Option ArtifactRef)

pub data Act (A : Type 0) : Type 0 where
  done : A → Act A
  fail : Failure → Act A
  call : (c : Call) → (Reply c → Act A) → Act A

infixl 5 ◌>>=◌
unfoldable pub ◌>>=◌ : {A B : Type 0} → Act A → (A → Act B) → Act B
done a >>= f = f a
fail e >>= f = fail e
call c next >>= f = call c (λ r. next r >>= f)

-- What is shown of a program's calls, and what is known of the replies to them.
pub record Contract : Type 1 where
  pub Promised : Call → Type 0
  pub Told : (c : Call) → Reply c → Type 0

-- Every call is as promised, and every result satisfies `Q`, for replies as told.
abbrev pub Acts : {A : Type 0} → Contract → (A → Type 0) → Act A → Type 0
Acts P Q (done a) = Q a
Acts P Q (fail e) = Unit {0}
Acts P Q (call c next) = P.Promised c × ((r : Reply c) → P.Told c r → Acts P Q (next r))

pub bind-Acts :
    {A B : Type 0} (P : Contract) (Q : A → Type 0) (R : B → Type 0) (m : Act A) (f : A → Act B)
    → Acts P Q m
    → ((a : A) → Q a → Acts P R (f a))
    → Acts P R (m >>= f)
unfolding ◌>>=◌
bind-Acts P Q R (done a) f h k = k a h
bind-Acts P Q R (fail e) f h k = tt
bind-Acts P Q R (call c next) f h k = (h.0, λ r t. bind-Acts P Q R (next r) f (h.1 r t) k)

-- The replies to the calls of a run, by the number of the call.
abbrev pub Replies : Type 0
Replies = ℕ → (c : Call) → Reply c

unfoldable pub outcome : {A : Type 0} → Replies → ℕ → Act A → Answer A
outcome replies n (done a) = ok a
outcome replies n (fail e) = err e
outcome replies n (call c next) = outcome replies (suc n) (next (replies n c))

unfoldable pub calls_of : {A : Type 0} → Replies → ℕ → Act A → List Call
calls_of replies n (done a) = []
calls_of replies n (fail e) = []
calls_of replies n (call c next) = c ∷ calls_of replies (suc n) (next (replies n c))

-- The calls of a run with their replies.
abbrev pub Exchange : Type 0
Exchange = (c : Call) × Reply c

unfoldable pub exchanges_of : {A : Type 0} → Replies → ℕ → Act A → List Exchange
exchanges_of replies n (done a) = []
exchanges_of replies n (fail e) = []
exchanges_of replies n (call c next) =
    (c, replies n c) ∷ exchanges_of replies (suc n) (next (replies n c))

abbrev ok_or : {A : Type 0} → A → Answer A → A
ok_or d (ok a) = a
ok_or d (err e) = d

abbrev IsOk : {A : Type 0} → Answer A → Type 0
IsOk (ok a) = Unit {0}
IsOk (err e) = ⊥

pub outcome-Acts :
    {A : Type 0} (P : Contract) (Q : A → Type 0) (m : Act A) (replies : Replies) (n : ℕ) (a : A)
    → Acts P Q m
    → ((c : Call) (r : Reply c) → Memᴰ (c, r) (exchanges_of replies n m) → P.Told c r)
    → outcome replies n m ≡ ok a
    → Q a
unfolding outcome exchanges_of
outcome-Acts P Q (done b) replies n a h t e = subst Q (ap (ok_or b) e) h
outcome-Acts P Q (fail x) replies n a h t e = absurd (subst IsOk (sym e) tt)
outcome-Acts P Q (call c next) replies n a h t e =
    outcome-Acts P Q (next (replies n c)) replies (suc n) a
      (h.1 (replies n c) (t c _ (Memᴰ.head refl))) (λ d r q. t d r (Memᴰ.tail q)) e

pub calls_of-Acts :
    {A : Type 0} (P : Contract) (Q : A → Type 0) (m : Act A) (replies : Replies) (n : ℕ)
    → Acts P Q m
    → ((c : Call) (r : Reply c) → P.Told c r)
    → All P.Promised (calls_of replies n m)
unfolding calls_of
calls_of-Acts P Q (done b) replies n h t = tt
calls_of-Acts P Q (fail x) replies n h t = tt
calls_of-Acts P Q (call c next) replies n h t =
    (h.0, calls_of-Acts P Q (next (replies n c)) replies (suc n) (h.1 (replies n c) (t c _)) t)
