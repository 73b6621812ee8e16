-- ===== src/Base/Str.antt =====
-- Go's strings as lists of bytes, and the functions of package `strings` that the program calls.
pub mod Laws
pub mod Split
use Prim.Native.Nat.{ℕ, zero, suc, ◌+◌}
use Prim.Native.Char.{code}
use Prim.Native.String.{String}
use mathlib.Core.Path.{◌≡◌, refl, ap}
use mathlib.Core.Logic.{◌↔◌, ◌≢◌}
use mathlib.Core.Bool.{Bool, true, false, not, ◌&&◌, ◌||◌}
use mathlib.Core.Option.{Option, none, some}
use mathlib.Core.List.{List, [], ◌∷◌, ◌++◌}
use native.Mathlib.Omega.{arith}
use groot_btrfs.Base.Tests.{◌==◌, if◌then◌else◌}

abbrev pub Str : Type 0
Str = List ℕ

-- The bytes of an ASCII literal.
abbrev pub codes : String → Str
codes String.[] = []
codes (String.◌∷◌ c s) = code c ∷ codes s

unfoldable pub eqb : Str → Str → Bool
eqb [] [] = true
eqb (a ∷ s) (b ∷ t) = a == b && eqb s t
eqb _ _ = false

pub eqb_iff : (s t : Str) → (eqb s t ≡ true) ↔ (s ≡ t)
unfolding eqb
eqb_iff [] [] = ground arith
eqb_iff [] (b ∷ t) = ground arith
eqb_iff (a ∷ s) [] = ground arith
eqb_iff (a ∷ s) (b ∷ t) = ground (arith, eqb_iff s t)

-- `strings.HasPrefix(s, p)`
unfoldable pub has_prefix : Str → Str → Bool
has_prefix s [] = true
has_prefix [] (b ∷ p) = false
has_prefix (a ∷ s) (b ∷ p) = a == b && has_prefix s p

-- `strings.Contains(s, p)`
unfoldable pub contains_str : Str → Str → Bool
unfolding has_prefix
contains_str [] p = has_prefix [] p
contains_str (a ∷ s) p = has_prefix (a ∷ s) p || contains_str s p

-- A list of strings has the string.
unfoldable pub contains : List Str → Str → Bool
unfolding eqb
contains [] v = false
contains (x ∷ xs) v = eqb x v || contains xs v

unfoldable pub drop : ℕ → Str → Str
drop zero s = s
drop (suc n) [] = []
drop (suc n) (a ∷ s) = drop n s

unfoldable pub size : Str → ℕ
size [] = 0
size (a ∷ s) = suc (size s)

-- `strings.Replace(s, old, new, 1)`: the first occurrence.
unfoldable pub replace_first : Str → Str → Str → Str
unfolding has_prefix drop size
replace_first [] old new = if has_prefix [] old then new else []
replace_first (a ∷ s) old new =
    let rest = replace_first s old new in
    if has_prefix (a ∷ s) old then new ++ drop (size old) (a ∷ s) else a ∷ rest

-- What stands behind a common prefix is determined.
pub append_cancel : (p s t : Str) → p ++ s ≡ p ++ t → s ≡ t
append_cancel [] s t e = e
append_cancel (a ∷ p) s t e = append_cancel p s t (cc)
