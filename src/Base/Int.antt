-- ===== src/Base/Int.antt =====
-- Signed integers over the native numbers, under the library's names, and Go's 64-bit arithmetic.
use Prim.Native.Nat.{ℕ, suc, ◌+◌, ◌-◌, ◌%◌, ◌^◌, ◌≤◌, ◌<◌}
use mathlib.Core.Path.{◌≡◌}
use mathlib.Core.Bool.{Bool, false}
use native.Mathlib.Omega.{arith}
use groot_btrfs.Base.Tests.{ltb, leb, if◌then◌else◌}

-- `negsuc n` is -(n + 1).
pub data ℤ : Type 0 where
  pos : ℕ → ℤ
  negsuc : ℕ → ℤ

abbrev pub pos_part : ℤ → ℕ
pos_part (pos n) = n
pos_part (negsuc n) = 0

abbrev pub neg_part : ℤ → ℕ
neg_part (pos n) = 0
neg_part (negsuc n) = suc n

-- a - b, as an integer.
abbrev pub sub_ℕ : ℕ → ℕ → ℤ
sub_ℕ a b = if leb b a then pos (a - b) else negsuc (b - a - 1)

infixl 65 ◌+ℤ◌ ◌-ℤ◌
infix 50 ◌≤ℤ◌ ◌<ℤ◌
unfoldable pub ◌+ℤ◌ : ℤ → ℤ → ℤ
a +ℤ b = sub_ℕ (pos_part a + pos_part b) (neg_part a + neg_part b)

unfoldable pub ◌-ℤ◌ : ℤ → ℤ → ℤ
a -ℤ b = sub_ℕ (pos_part a + neg_part b) (neg_part a + pos_part b)

abbrev pub ◌≤ℤ◌ : ℤ → ℤ → Type 0
a ≤ℤ b = pos_part a + neg_part b ≤ pos_part b + neg_part a

abbrev pub ◌<ℤ◌ : ℤ → ℤ → Type 0
a <ℤ b = pos_part a + neg_part b < pos_part b + neg_part a

abbrev pub ltb_ℤ : ℤ → ℤ → Bool
ltb_ℤ a b = ltb (pos_part a + neg_part b) (pos_part b + neg_part a)

abbrev pub leb_ℤ : ℤ → ℤ → Bool
leb_ℤ a b = leb (pos_part a + neg_part b) (pos_part b + neg_part a)

abbrev pub eqb_ℤ : ℤ → ℤ → Bool
eqb_ℤ a b = if ltb_ℤ a b then false else leb_ℤ a b

pub +ℤ_parts :
    (a b : ℤ)
    → pos_part (a +ℤ b) + neg_part a + neg_part b ≡ neg_part (a +ℤ b) + pos_part a + pos_part b
unfolding ◌+ℤ◌
+ℤ_parts a b = ground arith

pub -ℤ_parts :
    (a b : ℤ)
    → pos_part (a -ℤ b) + neg_part a + pos_part b ≡ neg_part (a -ℤ b) + pos_part a + neg_part b
unfolding ◌-ℤ◌
-ℤ_parts a b = ground arith

pub eq_of_parts : (a b : ℤ) → pos_part a + neg_part b ≡ pos_part b + neg_part a → a ≡ b
eq_of_parts a b h = ground arith

pub ruleset int_laws = (arith, +ℤ_parts, -ℤ_parts, eq_of_parts)

-- The two's complement reading of a 64-bit pattern.
unfoldable pub signed : ℕ → ℤ
signed n = if ltb n (2 ^ 63) then pos n else negsuc (2 ^ 64 - n - 1)

-- The 64-bit pattern of an integer.
unfoldable pub bits : ℤ → ℕ
bits (pos n) = n % 2 ^ 64
bits (negsuc n) = 2 ^ 64 - 1 - n % 2 ^ 64

-- Go's `a + b` and `a - b` on `int64` (and on `int`, which has 64 bits on the supported platforms).
unfoldable pub add64 : ℤ → ℤ → ℤ
unfolding signed bits
add64 a b = signed ((bits a + bits b) % 2 ^ 64)

unfoldable pub sub64 : ℤ → ℤ → ℤ
unfolding signed bits
sub64 a b = signed ((bits a + (2 ^ 64 - bits b)) % 2 ^ 64)

-- The values that an `int64` has.
pub record IsInt64 (a : ℤ) : Type 0 where
  pub above : pos_part a < 2 ^ 63
  pub below : neg_part a ≤ 2 ^ 63

-- In range the sum is the mathematical one.
pub add64-eq : (a b : ℤ) → IsInt64 a → IsInt64 b → IsInt64 (a +ℤ b) → add64 a b ≡ a +ℤ b
unfolding add64 ◌+ℤ◌
add64-eq a b ha hb hc = ground arith

pub sub64-eq : (a b : ℤ) → IsInt64 a → IsInt64 b → IsInt64 (a -ℤ b) → sub64 a b ≡ a -ℤ b
unfolding sub64 ◌-ℤ◌
sub64-eq a b ha hb hc = ground arith

-- Two numbers that are not negative add up part by part.
pub nonneg_parts :
    (a b : ℤ)
    → pos 0 ≤ℤ a
    → pos 0 ≤ℤ b
    → (pos_part (a +ℤ b) ≡ pos_part a + pos_part b)
      × (neg_part (a +ℤ b) ≡ 0)
      × (neg_part a ≡ 0)
      × (neg_part b ≡ 0)
unfolding ◌+ℤ◌
nonneg_parts a b ha hb = ground arith

pub pred_parts :
    (a : ℤ)
    → pos 1 ≤ℤ a
    → (pos_part (a -ℤ pos 1) + 1 ≡ pos_part a) × (neg_part (a -ℤ pos 1) ≡ 0) × (neg_part a ≡ 0)
unfolding ◌-ℤ◌
pred_parts a h = ground arith
