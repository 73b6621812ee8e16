-- ===== src/Base/Str/Split.antt =====
-- Splitting and trimming, as packages `strings` and `bufio` do it, on ASCII text.
use Prim.Native.Nat.{ℕ}
use mathlib.Core.Bool.{Bool, ◌&&◌, ◌||◌}
use mathlib.Core.List.{List, [], ◌∷◌, ◌++◌}
use groot_btrfs.Base.Tests.{◌==◌, if◌then◌else◌, leb}
use groot_btrfs.Base.Str.{Str}

-- A character in front of the first part.
abbrev pub push_part : ℕ → List Str → List Str
push_part c [] = (c ∷ []) ∷ []
push_part c (part ∷ parts) = (c ∷ part) ∷ parts

-- `strings.Split(s, separator)` for a separator of one character.
unfoldable pub split_on : ℕ → Str → List Str
split_on separator [] = [] ∷ []
split_on separator (c ∷ s) =
    let rest = split_on separator s in if c == separator then [] ∷ rest else push_part c rest

-- The text before the first separator.
unfoldable pub first_part : ℕ → Str → Str
first_part separator [] = []
first_part separator (c ∷ s) =
    let rest = first_part separator s in if c == separator then [] else c ∷ rest

-- `strings.Join(parts, separator)` for a separator of one character.
unfoldable pub join_with : ℕ → List Str → Str
join_with separator [] = []
join_with separator (s ∷ []) = s
join_with separator (s ∷ t ∷ parts) = s ++ (separator ∷ join_with separator (t ∷ parts))

-- The white space of `strings.TrimSpace` among ASCII.
abbrev pub is_space : ℕ → Bool
is_space c = c == 0x20 || (leb 9 c && leb c 13)

unfoldable pub trim_left : (ℕ → Bool) → Str → Str
trim_left p [] = []
trim_left p (c ∷ s) = let rest = trim_left p s in if p c then rest else c ∷ s

unfoldable pub trim_right : (ℕ → Bool) → Str → Str
trim_right p [] = []
trim_right p (c ∷ s) = elim (trim_right p s) [ [] ↦ if p c then [] else c ∷ [] | d ∷ r ↦ c ∷ d ∷ r ]

-- `strings.TrimSpace(s)`
unfoldable pub trim_space : Str → Str
unfolding trim_left trim_right
trim_space s = trim_right is_space (trim_left is_space s)

-- The lines of a text, the last one also without an end of line.
unfoldable pub lines : Str → List Str
lines [] = []
lines (c ∷ s) = let rest = lines s in if c == 10 then [] ∷ rest else push_part c rest
