-- ===== src/Base/FilePath/Laws.antt =====
-- The path of a plain name in a directory.
use Prim.Native.Nat.{ℕ}
use mathlib.Core.Path.{◌≡◌, refl, sym, ap, ◌∙◌}
use mathlib.Core.Bool.{Bool, true, false, not, ◌&&◌}
use mathlib.Core.List.{List, [], ◌∷◌, ◌++◌, reverse, append_assoc, append-nil, reverse-cons}
use native.Mathlib.Omega.{arith}
use groot_btrfs.Base.Tests.{if◌then◌else◌}
use groot_btrfs.Base.Str.{Str, codes, eqb, append_cancel}
use groot_btrfs.Base.Str.Laws.{slash_free}
use groot_btrfs.Base.FilePath.{
  elements_onto, elements, is_rooted, clean_element, clean_elements, join_elements, assemble, clean,
  drop_empty, join,
}

-- A name that is an element of a path and stays one.
pub record IsName (n : Str) : Type 0 where
  pub no_slash : slash_free n ≡ true
  pub full : eqb n [] ≡ false
  pub no_dot : eqb n (codes ".") ≡ false
  pub no_dots : eqb n (codes "..") ≡ false

abbrev pub is_name : Str → Bool
is_name n = slash_free n && not (eqb n []) && not (eqb n (codes ".")) && not (eqb n (codes ".."))

pub is_name-IsName : (n : Str) → is_name n ≡ true → IsName n
is_name-IsName n h = record {
  no_slash = ground arith;
  full = ground arith;
  no_dot = ground arith;
  no_dots = ground arith;
}

pub IsName-is_name : (n : Str) → IsName n → is_name n ≡ true
IsName-is_name n h = ground (arith, h.no_slash, h.full, h.no_dot, h.no_dots)

elements_onto_name :
    (current s : Str) → slash_free s ≡ true → elements_onto current s ≡ (reverse current ++ s) ∷ []
unfolding elements_onto
elements_onto_name current [] h = ap (λ t. t ∷ []) (sym (append-nil (reverse current)))
elements_onto_name current (c ∷ s) h =
    let rest = elements_onto_name (c ∷ current) s in
    let turn : reverse (c ∷ current) ++ s ≡ reverse current ++ (c ∷ s) =
      ap (λ t. t ++ s) (reverse-cons c current) ∙ append_assoc (reverse current) (c ∷ []) s in
    ground (arith, rest, turn)

elements_onto-append :
    (current p n : Str)
    → elements_onto current (p ++ (b'/' ∷ n)) ≡ elements_onto current p ++ elements_onto [] n
unfolding elements_onto
elements_onto-append current [] n = refl
elements_onto-append current (c ∷ p) n =
    ground (arith, elements_onto-append [] p n, elements_onto-append (c ∷ current) p n)

-- The elements kept of a path, the last one first.
abbrev kept_of : Bool → List Str → List Str → List Str
kept_of rooted kept [] = kept
kept_of rooted kept (e ∷ es) = kept_of rooted (clean_element rooted kept e) es

clean_elements_last :
    (rooted : Bool) (kept es : List Str) (n : Str)
    → IsName n
    → clean_elements rooted kept (es ++ (n ∷ [])) ≡ reverse (n ∷ kept_of rooted kept es)
unfolding clean_elements clean_element
clean_elements_last rooted kept [] n h = ground (arith, h.full, h.no_dot, h.no_dots)
clean_elements_last rooted kept (e ∷ es) n h =
    clean_elements_last rooted (clean_element rooted kept e) es n h

-- The text before the last element.
abbrev before : List Str → Str
before [] = []
before (k ∷ ks) = k ++ (b'/' ∷ before ks)

join_elements_last : (ks : List Str) (n : Str) → join_elements (ks ++ (n ∷ [])) ≡ before ks ++ n
unfolding join_elements
join_elements_last [] n = refl
join_elements_last (k ∷ []) n = sym (append_assoc k (b'/' ∷ []) n)
join_elements_last (k ∷ l ∷ ks) n =
    ap (λ t. k ++ (b'/' ∷ t)) (join_elements_last (l ∷ ks) n)
    ∙ sym (append_assoc k (b'/' ∷ before (l ∷ ks)) n)

abbrev rooted_before : Bool → List Str → Str
rooted_before rooted kept = if rooted then b'/' ∷ before kept else before kept

-- What `filepath.Join` puts before a name in the directory `p`.
abbrev pub directory : Str → Str
directory p = rooted_before (is_rooted p) (reverse (kept_of (is_rooted p) [] (elements p)))

assemble_last :
    (rooted : Bool) (ks : List Str) (n : Str)
    → assemble rooted (ks ++ (n ∷ [])) ≡ (if rooted then b'/' ∷ before ks else before ks) ++ n
unfolding assemble
assemble_last true ks n = ap (λ t. b'/' ∷ t) (join_elements_last ks n)
assemble_last false [] n = refl
assemble_last false (k ∷ ks) n = join_elements_last (k ∷ ks) n

pub join-name : (c : ℕ) (p n : Str) → IsName n → join ((c ∷ p) ∷ n ∷ []) ≡ directory (c ∷ p) ++ n
unfolding join clean elements is_rooted drop_empty
join-name c p [] h = absurd (ground (arith, h.full))
join-name c p (d ∷ n) h =
    let name = d ∷ n in
    let rooted = is_rooted (c ∷ p) in
    let split : elements ((c ∷ p) ++ (b'/' ∷ name)) ≡ elements (c ∷ p) ++ (name ∷ []) =
      elements_onto-append [] (c ∷ p) name
      ∙ ap (λ t. elements (c ∷ p) ++ t) (elements_onto_name [] name h.no_slash) in
    ap (λ t. assemble rooted (clean_elements rooted [] t)) split
    ∙ ap (assemble rooted) (
        clean_elements_last rooted [] (elements (c ∷ p)) name h
        ∙ reverse-cons name (kept_of rooted [] (elements (c ∷ p))))
    ∙ assemble_last rooted (reverse (kept_of rooted [] (elements (c ∷ p)))) name

-- Two names in one directory have distinct paths.
pub join_names-injective :
    (c : ℕ) (p n m : Str)
    → IsName n
    → IsName m
    → join ((c ∷ p) ∷ n ∷ []) ≡ join ((c ∷ p) ∷ m ∷ [])
    → n ≡ m
join_names-injective c p n m h k e =
    append_cancel (directory (c ∷ p)) n m (sym (join-name c p n h) ∙ e ∙ join-name c p m k)

kept_of_last :
    (rooted : Bool) (kept es : List Str) (n : Str)
    → IsName n
    → kept_of rooted kept (es ++ (n ∷ [])) ≡ n ∷ kept_of rooted kept es
unfolding clean_element
kept_of_last rooted kept [] n h = ground (arith, h.full, h.no_dot, h.no_dots)
kept_of_last rooted kept (e ∷ es) n h = kept_of_last rooted (clean_element rooted kept e) es n h

before-append :
    (ks : List Str) (n : Str) → before (ks ++ (n ∷ [])) ≡ before ks ++ (n ++ (b'/' ∷ []))
before-append [] n = refl
before-append (k ∷ ks) n =
    ap (λ t. k ++ (b'/' ∷ t)) (before-append ks n)
    ∙ sym (append_assoc k (b'/' ∷ before ks) (n ++ (b'/' ∷ [])))

rooted_before-append :
    (rooted : Bool) (ks : List Str) (n : Str)
    → rooted_before rooted (ks ++ (n ∷ [])) ≡ (rooted_before rooted ks ++ n) ++ (b'/' ∷ [])
rooted_before-append true ks n =
    ap (λ t. b'/' ∷ t) (before-append ks n ∙ sym (append_assoc (before ks) n (b'/' ∷ [])))
rooted_before-append false ks n = before-append ks n ∙ sym (append_assoc (before ks) n (b'/' ∷ []))

-- What is put before a name in a directory is the path of the directory and a slash.
pub directory-join :
    (c : ℕ) (p n : Str)
    → IsName n
    → directory ((c ∷ p) ++ (b'/' ∷ n)) ≡ join ((c ∷ p) ∷ n ∷ []) ++ (b'/' ∷ [])
unfolding elements is_rooted
directory-join c p n h =
    let rooted = is_rooted (c ∷ p) in
    let kept = kept_of rooted [] (elements (c ∷ p)) in
    let split : elements ((c ∷ p) ++ (b'/' ∷ n)) ≡ elements (c ∷ p) ++ (n ∷ []) =
      elements_onto-append [] (c ∷ p) n
      ∙ ap (λ t. elements (c ∷ p) ++ t) (elements_onto_name [] n h.no_slash) in
    let turned : reverse (kept_of rooted [] (elements ((c ∷ p) ++ (b'/' ∷ n))))
        ≡ reverse kept ++ (n ∷ []) =
      ap (λ t. reverse (kept_of rooted [] t)) split
      ∙ ap reverse (kept_of_last rooted [] (elements (c ∷ p)) n h)
      ∙ reverse-cons n kept in
    ap (rooted_before rooted) turned
    ∙ rooted_before-append rooted (reverse kept) n
    ∙ ap (λ t. t ++ (b'/' ∷ [])) (sym (join-name c p n h))

-- A name in a directory in a directory.
pub join-names :
    (c : ℕ) (p n m : Str)
    → IsName n
    → IsName m
    → join ((c ∷ p) ∷ n ∷ m ∷ []) ≡ join ((c ∷ p) ∷ n ∷ []) ++ (b'/' ∷ m)
unfolding join drop_empty join_elements
join-names c p [] m h k = absurd (ground (arith, h.full))
join-names c p (d ∷ n) [] h k = absurd (ground (arith, k.full))
join-names c p (d ∷ n) (e ∷ m) h k =
    ap clean (sym (append_assoc (c ∷ p) (b'/' ∷ d ∷ n) (b'/' ∷ e ∷ m)))
    ∙ join-name c (p ++ (b'/' ∷ d ∷ n)) (e ∷ m) k
    ∙ ap (λ t. t ++ (e ∷ m)) (directory-join c p (d ∷ n) h)
    ∙ append_assoc (join ((c ∷ p) ∷ (d ∷ n) ∷ [])) (b'/' ∷ []) (e ∷ m)
