-- ===== src/Base/Decimal/Laws.antt =====
-- The digits of a decimal text: what they stand for, and that none is a slash.

use Prim.Native.Nat.{ℕ, zero, suc, ◌+◌, ◌-◌, ◌*◌, ◌/◌, ◌%◌, ◌<◌, ◌≤◌}
use mathlib.Core.Path.{◌≡◌, refl, ap}
use mathlib.Core.Logic.{inl, inr}
use groot_btrfs.Base.Tests.{ltb, Bool-cases}
use mathlib.Core.Bool.{true}
use mathlib.Core.List.{[], ◌∷◌}
use native.Mathlib.Omega.{arith}
use groot_btrfs.Base.Int.{ℤ, pos, negsuc}
use groot_btrfs.Base.Str.{Str}
use groot_btrfs.Base.Str.Laws.{slash_free}
use groot_btrfs.Base.Decimal.{digits_onto, decimal, itoa}

digits_onto-slash_free :
    (fuel n : ℕ) (tail : Str) → slash_free tail ≡ true → slash_free (digits_onto fuel n tail) ≡ true
unfolding digits_onto
digits_onto-slash_free zero n tail h = h
digits_onto-slash_free (suc fuel) n tail h =
    ground (arith, digits_onto-slash_free fuel (n / 10) ((b'0' + n % 10) ∷ tail))

pub itoa-slash_free : (a : ℤ) → slash_free (itoa a) ≡ true
unfolding itoa decimal
itoa-slash_free (pos n) = digits_onto-slash_free (suc n) n [] refl
itoa-slash_free (negsuc n) = digits_onto-slash_free (suc (suc n)) (suc n) [] refl

-- The number that a text of digits stands for, read on from `a`.
abbrev pub value_onto : ℕ → Str → ℕ
value_onto a [] = a
value_onto a (c ∷ s) = value_onto (10 * a + (c - b'0')) s

digits_onto_value :
    (fuel n : ℕ) (tail : Str)
    → n < fuel
    → value_onto 0 (digits_onto fuel n tail) ≡ value_onto n tail
unfolding digits_onto
digits_onto_value zero n tail h = absurd (omega arith)
digits_onto_value (suc fuel) n tail h = elim (Bool-cases (ltb n 10)) [
  | inl small ↦
      let last : b'0' + n - b'0' ≡ n = omega arith in
      ground (arith, small, ap (λ a. value_onto a tail) last)
  | inr large ↦
      let least : 10 ≤ n = ground (arith, large) in
      let rest = digits_onto_value fuel (n / 10) ((b'0' + n % 10) ∷ tail) (omega arith) in
      let whole : 10 * (n / 10) + (b'0' + n % 10 - b'0') ≡ n = omega arith in
      ground (arith, large, rest, ap (λ a. value_onto a tail) whole)
]

-- The fuel is enough: the decimal text of a number stands for the number.
pub value-decimal : (n : ℕ) → value_onto 0 (decimal n) ≡ n
unfolding decimal
value-decimal n = digits_onto_value (suc n) n [] (omega arith)
