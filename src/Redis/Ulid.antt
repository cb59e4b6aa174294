-- ===== src/Redis/Ulid.antt =====
-- connectors/redis-dynamodb/ulid.go: the source of cursors. The package's variables are a state that
-- each call takes and returns, since a mutex is held for the whole call. The clock stands after 1970,
-- and entropy is a list of bytes with the first one most significant.
pub mod Order
use go_temporal_ai_sdk.Prelude.{
  ℕ, zero, suc, ◌+◌, ◌-◌, ◌*◌, ◌/◌, ◌%◌, ◌^◌, ltb, leb, eqb, String, Bool, true, false, Option,
  none, some, List, [], ◌∷◌, ◌++◌, map, join, if◌then◌else◌,
}

pub record Generator : Type 0 where
  pub last_event_time : ℕ
  pub last_entropy : List ℕ

-- `clear(lastEntropy[:])`
abbrev pub cleared : List ℕ → List ℕ
cleared = map (λ _. 0)

abbrev pub bump : ℕ → Bool × List ℕ → Bool × List ℕ
bump b (true, rest) = let c = (b + 1) % 256 in (eqb c 0, c ∷ rest)
bump b (false, rest) = (false, b ∷ rest)

-- The loop of incrementEntropy, from the last byte to the first: whether it goes on, and the bytes.
unfoldable pub increment_loop : List ℕ → Bool × List ℕ
increment_loop [] = (true, [])
increment_loop (b ∷ rest) = bump b (increment_loop rest)

unfoldable pub increment_entropy : List ℕ → List ℕ
unfolding increment_loop
increment_entropy bytes = (increment_loop bytes).1

abbrev pub alphabet : List String
alphabet =
    "0" ∷ "1" ∷ "2" ∷ "3" ∷ "4" ∷ "5" ∷ "6" ∷ "7" ∷ "8" ∷ "9" ∷ "A" ∷ "B" ∷ "C" ∷ "D" ∷ "E" ∷ "F"
    ∷ "G" ∷ "H" ∷ "J" ∷ "K" ∷ "M" ∷ "N" ∷ "P" ∷ "Q" ∷ "R" ∷ "S" ∷ "T" ∷ "V" ∷ "W" ∷ "X" ∷ "Y" ∷ "Z"
    ∷ []

-- An index below 32 always has a letter.
abbrev pub letter : List String → ℕ → String
letter [] n = ""
letter (s ∷ rest) zero = s
letter (s ∷ rest) (suc n) = letter rest n

-- `out[i] = alphabet[t&0x1f]; t >>= 5`, for as many places, from the last to the first.
unfoldable pub time_digits : ℕ → ℕ → List ℕ
time_digits zero t = []
time_digits (suc places) t = time_digits places (t / 32) ++ t % 32 ∷ []

-- `for bits >= 5`: as many rounds as the fuel and the bits allow, with the bits that are left.
unfoldable pub take_digits : ℕ → ℕ → ℕ → List ℕ × ℕ
take_digits zero buf bits = ([], bits)
take_digits (suc fuel) buf bits =
    let (more, left) = take_digits fuel buf (bits - 5) in
    if leb 5 bits then (buf / 2 ^ (bits - 5) % 32 ∷ more, left) else ([], bits)

-- `for _, b := range entropy`, with the 32 bits of `buf`; at most 12 bits are ever held, so that
-- three rounds are enough for the inner loop.
unfoldable pub entropy_digits : List ℕ → ℕ → ℕ → List ℕ
unfolding take_digits
entropy_digits [] buf bits = []
entropy_digits (b ∷ rest) buf bits =
    let wider = (buf * 256 % 2 ^ 32 + b) % 2 ^ 32 in
    let (digits, left) = take_digits 3 wider (bits + 8) in digits ++ entropy_digits rest wider left

unfoldable pub ulid_digits : ℕ → List ℕ → List ℕ
unfolding time_digits entropy_digits
ulid_digits ms entropy = time_digits 10 ms ++ entropy_digits entropy 0 0

unfoldable pub encode_ulid : ℕ → List ℕ → String
unfolding ulid_digits
encode_ulid ms entropy = join (map (letter alphabet) (ulid_digits ms entropy))

-- What rand.Read leaves in the bytes: new ones, or the cleared ones when it fails.
abbrev pub refreshed : Option (List ℕ) → List ℕ → List ℕ
refreshed none old = cleared old
refreshed (some bytes) old = bytes

-- newEventID before the encoding, from the clock and the answer of rand.Read.
unfoldable pub advance : ℕ → Option (List ℕ) → Generator → Generator
unfolding increment_entropy
advance now random g =
    if ltb g.last_event_time now
    then record { last_event_time = now; last_entropy = refreshed random g.last_entropy }
    else record {
      last_event_time = g.last_event_time;
      last_entropy = increment_entropy g.last_entropy;
    }

unfoldable pub new_event_id : ℕ → Option (List ℕ) → Generator → String × Generator
unfolding advance encode_ulid
new_event_id now random g =
    let g1 = advance now random g in (encode_ulid g1.last_event_time g1.last_entropy, g1)
