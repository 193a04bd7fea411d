-- ===== src/Prelude/Text.antt =====
-- Go's strings, which the program mostly compares whole.
use Prim.Native.String.{String}
use text.Mathlib.Text.{◌==◌}
use text.Mathlib.TextEquality.{eq_iff}
use mathlib.Core.Path.{◌≡◌, refl}
use mathlib.Core.Logic.{◌≢◌, ◌↔◌}
use mathlib.Core.Bool.{Bool, true, false}
use native.Mathlib.Omega.{arith}

-- `s == t` on strings.
unfoldable pub str_eq : String → String → Bool
str_eq s t = s == t

pub str_eq_iff : (s t : String) → (str_eq s t ≡ true) ↔ (s ≡ t)
unfolding str_eq
str_eq_iff s t = eq_iff s t

pub str_eq_refl : (s : String) → str_eq s s ≡ true
str_eq_refl s = (str_eq_iff s s).1 refl

pub str_eq-ne : (s t : String) → s ≢ t → str_eq s t ≡ false
str_eq-ne s t h = ground (arith, str_eq_iff s t)

-- `s == ""`
unfoldable pub is_empty : String → Bool
unfolding str_eq
is_empty s = str_eq s ""

pub is_empty_iff : (s : String) → (is_empty s ≡ true) ↔ (s ≡ "")
unfolding is_empty
is_empty_iff s = eq_iff s ""
