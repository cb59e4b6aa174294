-- ===== src/Redis/Ulid/Order.antt =====
-- What connectors/redis-dynamodb/ulid.go does to its state, read as numbers.
use go_temporal_ai_sdk.Prelude.{
  ℕ, suc, ◌+◌, ◌*◌, ◌%◌, ◌^◌, ◌≤◌, ◌<◌, ltb, eqb, ◌≡◌, ◌⊎◌, inl, inr, refl, Bool, true, false,
  Option, List, [], ◌∷◌, length, All, arith, sym, ap, if_cases,
}
use native.Mathlib.Nat.{mod-eq_of_lt, add-mod_right, mul-le-mul_right}
use go_temporal_ai_sdk.Redis.Ulid.{Generator, bump, increment_loop, increment_entropy, advance}

-- The bytes as one number, the first byte most significant.
abbrev pub value : List ℕ → ℕ
value [] = 0
value (b ∷ rest) = b * 256 ^ length rest + value rest

abbrev pub IsByte : ℕ → Type 0
IsByte b = b < 256

abbrev pub carry : Bool → ℕ → ℕ
carry true n = n
carry false n = 0

-- The number after the loop is one more, but for what is carried out of the first byte.
abbrev Counted : List ℕ → Bool × List ℕ → Type 0
Counted bytes (c, result) =
    (value bytes + 1 ≡ value result + carry c (256 ^ length bytes))
    × (length result ≡ length bytes)
    × All IsByte result

wraps : (b : ℕ) → IsByte b → (b ≡ 255) ⊎ ((b + 1) % 256 ≡ b + 1)
wraps b h = ground arith

pow_suc : (n : ℕ) → 256 ^ suc n ≡ 256 * 256 ^ n
pow_suc n = omega arith

digit_step :
    (b p v v' : ℕ)
    → IsByte b
    → v + 1 ≡ v' + p
    → b * p + v + 1 ≡ (b + 1) % 256 * p + v' + carry (eqb ((b + 1) % 256) 0) (256 * p)
digit_step b p v v' hb h = elim (wraps b hb) [
  | inl e ↦ rw e (grind (arith, h))
  | inr e ↦ rw e (grind (arith, h))
]

bump-Counted :
    (b : ℕ) (rest : List ℕ) (r : Bool × List ℕ)
    → IsByte b
    → Counted rest r
    → Counted (b ∷ rest) (bump b r)
bump-Counted b rest (true, result) hb (sum, same_length, bytes) = (
  rw (same_length, pow_suc (length rest))
      (digit_step b (256 ^ length rest) (value rest) (value result) hb sum),
  omega (arith, same_length),
  (omega arith, bytes),
)
bump-Counted b rest (false, result) hb h = ground arith

increment_loop-Counted : (bytes : List ℕ) → All IsByte bytes → Counted bytes (increment_loop bytes)
unfolding increment_loop
increment_loop-Counted [] h = (refl, refl, tt)
increment_loop-Counted (b ∷ rest) h =
    bump-Counted b rest (increment_loop rest) h.0 (increment_loop-Counted rest h.1)

value-bound : (bytes : List ℕ) → All IsByte bytes → value bytes < 256 ^ length bytes
value-bound [] h = omega arith
value-bound (b ∷ rest) h =
    let small : b * 256 ^ length rest ≤ 255 * 256 ^ length rest =
      mul-le-mul_right (256 ^ length rest) (omega (arith, h.0)) in
    omega (arith, small, value-bound rest h.1, pow_suc (length rest))

-- What one more is, below a bound that it may have left behind.
settled : (c : Bool) (v v' p : ℕ) → v + 1 ≡ v' + carry c p → v' < p → v' ≡ (v + 1) % p
settled true v v' p e h = rw (e, add-mod_right v' p) (sym (mod-eq_of_lt h))
settled false v v' p e h =
    let same : v + 1 ≡ v' = omega (arith, e) in rw same (sym (mod-eq_of_lt h))

-- The cursors' order: a later time, or the same time and larger entropy.
abbrev pub Precedes : Generator → Generator → Type 0
Precedes g g' =
    (g.last_event_time < g'.last_event_time)
    ⊎ ((g.last_event_time ≡ g'.last_event_time) × (value g.last_entropy < value g'.last_entropy))

-- On bytes, incrementEntropy adds one to the entropy as a number in base 256, and returns to zero
-- after the largest number of that many bytes; it keeps the number of bytes.
pub increment_entropy-value :
    (bytes : List ℕ)
    → All IsByte bytes
    → (value (increment_entropy bytes) ≡ (value bytes + 1) % 256 ^ length bytes)
      × (length (increment_entropy bytes) ≡ length bytes)
unfolding increment_entropy
increment_entropy-value bytes h =
    let (sum, same_length, small) = increment_loop-Counted bytes h in
    (
      settled (increment_loop bytes).0 (value bytes) (value (increment_loop bytes).1)
          (256 ^ length bytes) sum
          (rw (sym (ap (λ n. 256 ^ n) same_length)) (value-bound (increment_loop bytes).1 small)),
      same_length,
    )

-- If the last entropy is made of bytes, the time and the entropy of a new cursor follow those of the
-- one before, whatever the clock and rand.Read answer, unless the entropy is already the largest of
-- its length.
pub advance-Precedes :
    (now : ℕ) (random : Option (List ℕ)) (g : Generator)
    → All IsByte g.last_entropy
    → value g.last_entropy + 1 < 256 ^ length g.last_entropy
    → Precedes g (advance now random g)
unfolding advance
advance-Precedes now random g h room =
    if_cases (λ g'. Precedes g g') (ltb g.last_event_time now) (λ later. inl (ground arith))
      (λ _.
        inr (refl, omega (arith, (increment_entropy-value g.last_entropy h).0, mod-eq_of_lt room)))
