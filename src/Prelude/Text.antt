-- ===== src/Prelude/Text.antt =====
-- When a joined text is empty.
use Prim.Native.Char.{Char}
use Prim.Native.String
use Prim.Native.String.append
use Prim.Native.String.compare
use Prim.Native.String.{String}
use mathlib.Core.Path.{◌≡◌}
use mathlib.Core.Bool.{false}
use text.Mathlib.Text.{◌==◌}
use text.Mathlib.TextPositions.{eq_refl}

pub cons-ne_empty : (c : Char) (s : String) → (String.◌∷◌ c s == "") ≡ false
cons-ne_empty c s = rw compare.cons-nil

pub append-ne_empty : (s t : String) → (s == "") ≡ false → (String.◌++◌ s t == "") ≡ false
append-ne_empty String.[] t h = cc (eq_refl String.[])
append-ne_empty (String.◌∷◌ c s) t h = rw append.cons (cons-ne_empty c (String.◌++◌ s t))
