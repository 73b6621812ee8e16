-- ===== src/Base/FilePath.antt =====
-- The functions of packages `path` and `path/filepath` that the program calls, on slash paths.
pub mod Laws
use mathlib.Core.Bool.{Bool, true, false}
use mathlib.Core.List.{List, [], ◌∷◌, ◌++◌, reverse}
use groot_btrfs.Base.Tests.{◌==◌, if◌then◌else◌}
use groot_btrfs.Base.Str.{Str, codes, eqb}

-- The elements between the slashes; `current` is the element read so far, from its end.
unfoldable pub elements_onto : Str → Str → List Str
elements_onto current [] = reverse current ∷ []
elements_onto current (c ∷ s) =
    let split = reverse current ∷ elements_onto [] s in
    let more = elements_onto (c ∷ current) s in if c == b'/' then split else more

-- `strings.Split(s, "/")`
unfoldable pub elements : Str → List Str
unfolding elements_onto
elements s = elements_onto [] s

unfoldable pub is_rooted : Str → Bool
is_rooted [] = false
is_rooted (c ∷ s) = c == b'/'

-- One element of a path that is cleaned, on the elements kept so far, the last one first.
unfoldable pub clean_element : Bool → List Str → Str → List Str
unfolding eqb
clean_element rooted kept element =
    if eqb element []
    then kept
    else if eqb element (codes ".")
    then kept
    else if eqb element (codes "..")
    then back kept
    else element ∷ kept
  where
    back : List Str → List Str
    back [] = if rooted then [] else element ∷ []
    back (top ∷ rest) = if eqb top (codes "..") then element ∷ top ∷ rest else rest

unfoldable pub clean_elements : Bool → List Str → List Str → List Str
unfolding clean_element
clean_elements rooted kept [] = reverse kept
clean_elements rooted kept (e ∷ es) = clean_elements rooted (clean_element rooted kept e) es

-- `strings.Join(elements, "/")`
unfoldable pub join_elements : List Str → Str
join_elements [] = []
join_elements (e ∷ []) = e
join_elements (e ∷ f ∷ es) = e ++ (b'/' ∷ join_elements (f ∷ es))

unfoldable pub assemble : Bool → List Str → Str
unfolding join_elements
assemble true es = b'/' ∷ join_elements es
assemble false [] = codes "."
assemble false (e ∷ es) = join_elements (e ∷ es)

-- `filepath.Clean(p)`
unfoldable pub clean : Str → Str
unfolding elements is_rooted clean_elements assemble
clean p = assemble (is_rooted p) (clean_elements (is_rooted p) [] (elements p))

unfoldable pub drop_empty : List Str → List Str
unfolding eqb
drop_empty [] = []
drop_empty ([] ∷ es) = drop_empty es
drop_empty ((c ∷ e) ∷ es) = (c ∷ e) ∷ drop_empty es

-- `filepath.Join(elements...)`
unfoldable pub join : List Str → Str
unfolding drop_empty join_elements clean
join es = join_kept (drop_empty es)
  where
    join_kept : List Str → Str
    join_kept [] = []
    join_kept (k ∷ ks) = clean (join_elements (k ∷ ks))

-- The text up to the last slash, that slash included.
unfoldable pub through_slash : Str → Str
through_slash [] = []
through_slash (c ∷ s) = keep (through_slash s)
  where
    keep : Str → Str
    keep [] = if c == b'/' then c ∷ [] else []
    keep (d ∷ r) = c ∷ d ∷ r

-- `filepath.Dir(p)`
unfoldable pub dir : Str → Str
unfolding through_slash clean
dir p = clean (through_slash p)

unfoldable pub last_element : List Str → Str
last_element [] = []
last_element (e ∷ []) = e
last_element (e ∷ f ∷ es) = last_element (f ∷ es)

-- `path.Base(p)`
unfoldable pub base : Str → Str
unfolding elements drop_empty last_element
base [] = codes "."
base (c ∷ p) = base_of (drop_empty (elements (c ∷ p)))
  where
    base_of : List Str → Str
    base_of [] = codes "/"
    base_of (e ∷ es) = last_element (e ∷ es)
