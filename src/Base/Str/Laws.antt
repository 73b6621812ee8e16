-- ===== src/Base/Str/Laws.antt =====
-- Prefixes, occurrences and replacement in strings.
use groot_btrfs.Base.Tests.{◌==◌}
use Prim.Native.Nat.{ℕ, zero, suc}
use mathlib.Core.Path.{◌≡◌, refl}
use mathlib.Core.Bool.{Bool, true, false, not, ◌&&◌}
use mathlib.Core.List.{[], ◌∷◌, ◌++◌, append-nil}
use native.Mathlib.Omega.{arith}
use groot_btrfs.Base.Str.{Str, eqb, has_prefix, contains_str, drop, size, replace_first}

-- A string with no slash.
abbrev pub slash_free : Str → Bool
slash_free [] = true
slash_free (c ∷ s) = not (c == b'/') && slash_free s

pub slash_free-append : (s t : Str) → slash_free (s ++ t) ≡ (slash_free s && slash_free t)
slash_free-append [] t = refl
slash_free-append (c ∷ s) t = ground (arith, slash_free-append s t)

pub has_prefix-append : (p s : Str) → has_prefix (p ++ s) p ≡ true
unfolding has_prefix
has_prefix-append [] [] = refl
has_prefix-append [] (c ∷ s) = refl
has_prefix-append (c ∷ p) s = ground (arith, has_prefix-append p s)

pub has_prefix-nil : (s : Str) → has_prefix s [] ≡ true
unfolding has_prefix
has_prefix-nil [] = refl
has_prefix-nil (c ∷ s) = refl

pub drop-size : (p s : Str) → drop (size p) (p ++ s) ≡ s
unfolding drop size
drop-size [] s = refl
drop-size (c ∷ p) s = drop-size p s

-- A prefix and what stands behind it.
pub has_prefix-split : (s p : Str) → has_prefix s p ≡ true → p ++ drop (size p) s ≡ s
unfolding has_prefix drop size
has_prefix-split [] [] h = refl
has_prefix-split (a ∷ s) [] h = refl
has_prefix-split [] (b ∷ p) h = cc
has_prefix-split (a ∷ s) (b ∷ p) h = ground (arith, has_prefix-split s p)

pub has_prefix_trans : (s t p : Str) → has_prefix s (t ++ p) ≡ true → has_prefix s t ≡ true
unfolding has_prefix
has_prefix_trans s [] p h = has_prefix-nil s
has_prefix_trans [] (c ∷ t) p h = cc
has_prefix_trans (a ∷ s) (c ∷ t) p h = ground (arith, has_prefix_trans s t p)

-- Where a string has no occurrence of `t`, it has none of a longer one.
pub contains_str-shorter :
    (s t p : Str) → contains_str s t ≡ false → contains_str s (t ++ p) ≡ false
unfolding contains_str
contains_str-shorter [] t p h = ground (arith, has_prefix_trans [] t p)
contains_str-shorter (a ∷ s) t p h =
    ground (arith, has_prefix_trans (a ∷ s) t p, contains_str-shorter s t p)

pub contains_str-append : (s p t : Str) → contains_str (s ++ (p ++ t)) p ≡ true
unfolding contains_str has_prefix
contains_str-append [] [] [] = refl
contains_str-append [] [] (c ∷ t) = refl
contains_str-append [] (c ∷ p) t = ground (arith, has_prefix-append (c ∷ p) t)
contains_str-append (c ∷ s) p t = ground (arith, contains_str-append s p t)

-- A prefix with no slash ends before the slash.
pub has_prefix-before_slash :
    (s t p : Str)
    → slash_free p ≡ true
    → has_prefix (s ++ (b'/' ∷ t)) p ≡ true
    → has_prefix s p ≡ true
unfolding has_prefix
has_prefix-before_slash s t [] f h = has_prefix-nil s
has_prefix-before_slash [] t (c ∷ p) f h = ground arith
has_prefix-before_slash (a ∷ s) t (c ∷ p) f h = ground (arith, has_prefix-before_slash s t p)

drop-all : (s : Str) → drop (size s) s ≡ []
unfolding drop size
drop-all [] = refl
drop-all (c ∷ s) = drop-all s

pub has_prefix_self : (s : Str) → has_prefix s s ≡ true
unfolding has_prefix
has_prefix_self [] = refl
has_prefix_self (c ∷ s) = ground (arith, has_prefix_self s)

replace_first_self : (s fresh : Str) → replace_first s s fresh ≡ fresh
unfolding replace_first
replace_first_self [] fresh = refl
replace_first_self (c ∷ s) fresh = rw (has_prefix_self (c ∷ s), drop-all (c ∷ s)) (append-nil fresh)

-- The last element of a path is replaced, unless its name stands in the path before it.
pub replace_first-last :
    (s old fresh : Str)
    → slash_free old ≡ true
    → contains_str s old ≡ false
    → replace_first (s ++ (b'/' ∷ old)) old fresh ≡ s ++ (b'/' ∷ fresh)
unfolding replace_first contains_str
replace_first-last [] old fresh f h =
    ground (arith, replace_first_self old fresh, has_prefix-before_slash [] old old)
replace_first-last (c ∷ s) old fresh f h =
    ground (arith, has_prefix-before_slash (c ∷ s) old old, replace_first-last s old fresh)

-- The path of a name is under that of another only if the names are the same.
pub has_prefix-names :
    (s t : Str)
    → slash_free s ≡ true
    → slash_free t ≡ true
    → has_prefix (s ++ (b'/' ∷ [])) (t ++ (b'/' ∷ [])) ≡ eqb s t
unfolding has_prefix eqb
has_prefix-names [] [] f g = refl
has_prefix-names [] (b ∷ t) f g = ground arith
has_prefix-names (a ∷ s) [] f g = ground arith
has_prefix-names (a ∷ s) (b ∷ t) f g = ground (arith, has_prefix-names s t)

pub has_prefix_cancel : (p s t : Str) → has_prefix (p ++ s) (p ++ t) ≡ has_prefix s t
unfolding has_prefix
has_prefix_cancel [] s t = refl
has_prefix_cancel (c ∷ p) s t = ground (arith, has_prefix_cancel p s t)

slash_free-drop : (n : ℕ) (s : Str) → slash_free s ≡ true → slash_free (drop n s) ≡ true
unfolding drop
slash_free-drop zero s h = h
slash_free-drop (suc n) [] h = h
slash_free-drop (suc n) (c ∷ s) h = slash_free-drop n s (ground arith)

pub slash_free-replace_first :
    (s old : Str) → slash_free s ≡ true → slash_free (replace_first s old []) ≡ true
unfolding replace_first
slash_free-replace_first [] old h = ground arith
slash_free-replace_first (c ∷ s) old h =
    ground (arith, slash_free-replace_first s old, slash_free-drop (size old) (c ∷ s) h)
