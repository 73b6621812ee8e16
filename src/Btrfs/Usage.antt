-- ===== src/Btrfs/Usage.antt =====
-- What the driver reads from the output of `btrfs qgroup show`.
pub mod Laws
use groot_btrfs.Base.{
  ℕ, ◌+◌, ◌*◌, ◌-◌, ◌^◌, Bool, true, false, ◌&&◌, ◌||◌, List, [], ◌∷◌, ◌++◌, if◌then◌else◌, ◌==◌,
  leb, ltb, Option, none, some,
}
use mathlib.Core.List.{reverse}
use groot_btrfs.Base.Int.{ℤ, pos}
use groot_btrfs.Base.Str.{Str, codes}
use groot_btrfs.Base.Str.Split.{trim_space}
use groot_btrfs.Base.Decimal.Laws.{value_onto}
use groot_btrfs.Base.Effect.{Error, Result, ok, err}
use groot_btrfs.Groot.{VolumeStats}

-- `\d` and `\s` of package `regexp`
abbrev pub is_digit : ℕ → Bool
is_digit c = leb b'0' c && leb c b'9'

abbrev pub is_white : ℕ → Bool
is_white c = c == 0x20 || (c == 9 || (c == 10 || (c == 12 || c == 13)))

-- The longest run of characters at the front, behind those that were read, and what follows it.
unfoldable pub span_onto : (ℕ → Bool) → Str → Str → Str × Str
span_onto p read [] = (read, [])
span_onto p read (c ∷ s) =
    let rest = span_onto p (c ∷ read) s in if p c then rest else (read, c ∷ s)

-- The digits that were read, if there are any and white space stands before them.
unfoldable pub after_white : Str × Str → Option (Str × Str)
after_white ([], before) = none
after_white (c ∷ digits, []) = none
after_white (c ∷ digits, b ∷ before) = if is_white b then some (c ∷ digits, b ∷ before) else none

-- Digits at the end of a text, given in reverse, that follow white space: the digits, and the text
-- before them.
unfoldable pub last_number : Str → Option (Str × Str)
unfolding span_onto after_white
last_number back = after_white (span_onto is_digit [] back)

unfoldable pub total_of : Str → Option (Str × Str) → Option (Str × Str)
total_of exclusive none = none
total_of exclusive (some (total, before)) = some (total, exclusive)

unfoldable pub both_of : Option (Str × Str) → Option (Str × Str)
unfolding last_number span_onto total_of
both_of none = none
both_of (some (exclusive, before)) =
    total_of exclusive (last_number (span_onto is_white [] before).1)

-- The groups of `.*\s+(\d+)\s+(\d+)$`: the two numbers that end the text.
unfoldable pub find_numbers : Str → Option (Str × Str)
unfolding both_of last_number
find_numbers text = both_of (last_number (reverse text))

-- `fmt.Sscanf(digits, "%d", &n)`, which leaves `n` at 0 when the number needs more than 64 bits.
unfoldable pub scan_int64 : Str → ℤ
scan_int64 digits = let n = value_onto 0 digits in if ltb n (2 ^ 63) then pos n else pos 0

-- The statistics of the groups that were found.
unfoldable pub read_numbers : Option (Str × Str) → Result VolumeStats
unfolding scan_int64
read_numbers none = err (Error.new (codes "could not parse stats"))
read_numbers (some (total, exclusive)) = ok (record {
  disk_usage = record {
    total_bytes_used = scan_int64 total;
    exclusive_bytes_used = scan_int64 exclusive;
  };
})

unfoldable pub parse_usage : Str → Result VolumeStats
unfolding find_numbers read_numbers trim_space
parse_usage output = read_numbers (find_numbers (trim_space output))
