-- ===== src/Base/Decimal.antt =====
-- Decimal text, as `strconv.Itoa`, `strconv.FormatInt(_, 10)` and the verb `%d` write it.
pub mod Laws
use Prim.Native.Nat.{ℕ, zero, suc, ◌+◌, ◌/◌, ◌%◌}
use mathlib.Core.List.{[], ◌∷◌}
use groot_btrfs.Base.Tests.{ltb, if◌then◌else◌}
use groot_btrfs.Base.Int.{ℤ, pos, negsuc}
use groot_btrfs.Base.Str.{Str}

-- The last digit first; the fuel is above the number, and each round divides it by ten.
unfoldable pub digits_onto : ℕ → ℕ → Str → Str
digits_onto zero n tail = tail
digits_onto (suc fuel) n tail =
    let rest = digits_onto fuel (n / 10) ((b'0' + n % 10) ∷ tail) in
    if ltb n 10 then (b'0' + n) ∷ tail else rest

unfoldable pub decimal : ℕ → Str
unfolding digits_onto
decimal n = digits_onto (suc n) n []

unfoldable pub itoa : ℤ → Str
unfolding decimal
itoa (pos n) = decimal n
itoa (negsuc n) = b'-' ∷ decimal (suc n)
