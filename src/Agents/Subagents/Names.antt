-- ===== src/Agents/Subagents/Names.antt =====
-- The names of subagents (sanitizeSubagentID of temporalai/subagent.go).
use Prim.Native.Char.{code}
use go_temporal_ai_sdk.Prelude.{String, ◌≡◌, refl, true, false, ◌==◌, eqb, if_cases}
use go_temporal_ai_sdk.Relay.Classify.{is_kept}
use go_temporal_ai_sdk.Agents.Subagents.{trim_left, trim_right, dashed, sanitize_subagent_id}

-- Only letters, digits, dashes and underscores.
abbrev pub OnlyKept : String → Type 0
OnlyKept String.[] = Unit {0}
OnlyKept (String.◌∷◌ c s) = (is_kept (code c) ≡ true) × OnlyKept s

dashed-OnlyKept : (s : String) → OnlyKept (dashed s)
unfolding dashed
dashed-OnlyKept String.[] = tt
dashed-OnlyKept (String.◌∷◌ c s) = (
  if_cases (λ d. is_kept (code d) ≡ true) (is_kept (code c)) (λ h. h) (λ _. refl),
  dashed-OnlyKept s,
)

trim_left-OnlyKept : (s : String) → OnlyKept s → OnlyKept (trim_left s)
unfolding trim_left
trim_left-OnlyKept String.[] h = tt
trim_left-OnlyKept (String.◌∷◌ c s) h =
    if_cases OnlyKept (eqb (code c) b'-') (λ _. trim_left-OnlyKept s h.1) (λ _. h)

trim_right-OnlyKept : (s : String) → OnlyKept s → OnlyKept (trim_right s)
unfolding trim_right
trim_right-OnlyKept String.[] h = tt
trim_right-OnlyKept (String.◌∷◌ c s) h =
    if_cases OnlyKept (trim_right s == "")
      (λ _. if_cases OnlyKept (eqb (code c) b'-') (λ _. tt) (λ _. (h.0, tt)))
      (λ _. (h.0, trim_right-OnlyKept s h.1))

-- The identifier of a subagent is never empty and has only letters, digits, dashes and underscores,
-- whatever the names of the tool and of the call are.
pub sanitize_subagent_id-OnlyKept :
    (value : String)
    → OnlyKept (sanitize_subagent_id value) × ((sanitize_subagent_id value == "") ≡ false)
unfolding sanitize_subagent_id
sanitize_subagent_id-OnlyKept value =
    if_cases (λ s. OnlyKept s × ((s == "") ≡ false)) (trim_right (trim_left (dashed value)) == "")
      (λ _. ((refl, (refl, (refl, (refl, (refl, (refl, (refl, (refl, tt)))))))), refl))
      (λ e. (
        trim_right-OnlyKept (trim_left (dashed value))
            (trim_left-OnlyKept (dashed value) (dashed-OnlyKept value)),
        e,
      ))
