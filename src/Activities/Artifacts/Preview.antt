-- ===== src/Activities/Artifacts/Preview.antt =====
-- How large the preview of a stored value is: truncateUTF8Bytes of activities/artifacts.go.
use Prim.Native.Char.{Char, len_utf8}
use Prim.Native.String.len
use Prim.Native.String.{len}
use mathlib.Core.Path.{subst}
use text.Mathlib.TextPositions.{len-append}
use go_temporal_ai_sdk.Prelude.{
  ℕ, ◌-◌, ◌≤◌, ltb, ℤ, pos, negsuc, ltb_ℤ, ◌-ℤ◌, ◌+ℤ◌, String, ◌≡◌, sym, ◌∙◌, true, false, not,
  ◌||◌, if_cases, arith,
}
use go_temporal_ai_sdk.Activities.Artifacts.{characters_within, truncate_bytes}

len_one : (c : Char) → len (String.◌∷◌ c "") ≡ len_utf8 c
len_one c = len.cons c "" ∙ ground (arith, len.nil)

pos-sub : (n k : ℕ) → ltb n k ≡ false → pos n -ℤ pos k ≡ pos (n - k)
unfolding ◌-ℤ◌
pos-sub n k h = ground arith

characters_within-len : (n : ℕ) (s : String) → len (characters_within (pos n) s) ≤ n
unfolding characters_within
characters_within-len n String.[] = ground (arith, len.nil)
characters_within-len n (String.◌∷◌ c s) =
    if_cases (λ t. len t ≤ n) (ltb n (len (String.◌∷◌ c ""))) (λ _. ground (arith, len.nil))
      (λ e.
        subst (λ room. len (String.◌∷◌ c (characters_within room s)) ≤ n)
          (sym (pos-sub n (len (String.◌∷◌ c "")) e))
          (ground (
            arith,
            len_one c,
            len.cons c (characters_within (pos (n - len (String.◌∷◌ c ""))) s),
            characters_within-len (n - len (String.◌∷◌ c "")) s,
          )))

pub truncate_bytes-short :
    (s : String) (most : ℤ)
    → ltb_ℤ (pos 0) most ≡ true
    → ltb_ℤ (most +ℤ pos 14) (pos (len (truncate_bytes s most))) ≡ false
unfolding truncate_bytes ◌+ℤ◌
truncate_bytes-short s (pos n) positive =
    if_cases (λ t. ltb_ℤ (pos n +ℤ pos 14) (pos (len t)) ≡ false)
      (not (ltb_ℤ (pos 0) (pos n)) || not (ltb_ℤ (pos n) (pos (len s)))) (λ e. ground arith)
      (λ _. ground (
        arith,
        characters_within-len n s,
        len-append (characters_within (pos n) s) "...[truncated]",
      ))
truncate_bytes-short s (negsuc n) positive = ground arith
