-- ===== src/Prelude/Decimal.antt =====
-- `%d`: the decimal digits of an integer.
use Prim.Native.Nat.{ℕ, zero, suc, ◌/◌, ◌%◌}
use Prim.Native.String
use Prim.Native.String.{String}
use mathlib.Core.Path.{◌≡◌, refl}
use go_temporal_ai_sdk.Prelude.Tests.{ltb, if◌then◌else◌}
use go_temporal_ai_sdk.Prelude.Int.{ℤ, pos, negsuc}

digit : ℕ → String
digit zero = "0"
digit (suc zero) = "1"
digit (suc (suc zero)) = "2"
digit (suc (suc (suc zero))) = "3"
digit (suc (suc (suc (suc zero)))) = "4"
digit (suc (suc (suc (suc (suc zero))))) = "5"
digit (suc (suc (suc (suc (suc (suc zero)))))) = "6"
digit (suc (suc (suc (suc (suc (suc (suc zero))))))) = "7"
digit (suc (suc (suc (suc (suc (suc (suc (suc zero)))))))) = "8"
digit _ = "9"

-- The fuel is one more than the number, and each round divides it by ten.
decimal_loop : ℕ → ℕ → String
unfolding digit
decimal_loop zero n = ""
decimal_loop (suc fuel) n =
    let more = String.◌++◌ (decimal_loop fuel (n / 10)) (digit (n % 10)) in
    if ltb n 10 then digit n else more

unfoldable pub decimal : ℤ → String
unfolding decimal_loop
decimal (pos n) = decimal_loop (suc n) n
decimal (negsuc n) = String.◌++◌ "-" (decimal_loop (suc (suc n)) (suc n))

decimal_4096 : decimal (pos 4096) ≡ "4096"
unfolding decimal
decimal_4096 = refl
