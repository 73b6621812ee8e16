-- ===== src/Groot/Namespacer/Order.antt =====
-- The order of strings, and sorting by it.
use groot_btrfs.Base.{◌≡◌, refl, ap, ◌∙◌, true, ◌||◌, List, [], ◌∷◌, arith, map}
use mathlib.Core.List.{Permᴰ}
use groot_btrfs.Base.Str.{Str, eqb_iff}
use groot_btrfs.Groot.{IdMappingSpec}
use groot_btrfs.Groot.Namespacer.{
  leb_str, insert_str, sort_strings, deep_equal, mapping_text, normalize_mappings,
}

pub leb_str_total : (s t : Str) → (leb_str s t || leb_str t s) ≡ true
unfolding leb_str
leb_str_total [] [] = refl
leb_str_total [] (b ∷ t) = refl
leb_str_total (a ∷ s) [] = refl
leb_str_total (a ∷ s) (b ∷ t) = ground (arith, leb_str_total s t)

pub leb_str_antisym : (s t : Str) → leb_str s t ≡ true → leb_str t s ≡ true → s ≡ t
unfolding leb_str
leb_str_antisym [] [] h k = refl
leb_str_antisym [] (b ∷ t) h k = ground arith
leb_str_antisym (a ∷ s) [] h k = ground arith
leb_str_antisym (a ∷ s) (b ∷ t) h k = ground (arith, leb_str_antisym s t)

pub leb_str_trans : (s t u : Str) → leb_str s t ≡ true → leb_str t u ≡ true → leb_str s u ≡ true
unfolding leb_str
leb_str_trans [] t u h k = refl
leb_str_trans (a ∷ s) [] u h k = ground arith
leb_str_trans (a ∷ s) (b ∷ t) [] h k = ground arith
leb_str_trans (a ∷ s) (b ∷ t) (c ∷ u) h k = ground (arith, leb_str_trans s t u)

pub insert_str_comm :
    (s t : Str) (ts : List Str) → insert_str s (insert_str t ts) ≡ insert_str t (insert_str s ts)
unfolding insert_str
insert_str_comm s t [] = ground (arith, leb_str_total s t, leb_str_antisym s t)
insert_str_comm s t (u ∷ ts) = ground (
  arith,
  insert_str_comm s t ts,
  leb_str_total s t,
  leb_str_antisym s t,
  leb_str_total s u,
  leb_str_total t u,
  leb_str_trans s t u,
  leb_str_trans t s u,
  leb_str_trans s u t,
  leb_str_trans t u s,
)

pub deep_equal_self : (ss : List Str) → deep_equal ss ss ≡ true
unfolding deep_equal
deep_equal_self [] = refl
deep_equal_self (s ∷ ss) = ground (arith, eqb_iff s s, deep_equal_self ss)

pub deep_equal_iff : (ss ts : List Str) → deep_equal ss ts ≡ true → ss ≡ ts
unfolding deep_equal
deep_equal_iff [] [] h = refl
deep_equal_iff [] (t ∷ ts) h = ground arith
deep_equal_iff (s ∷ ss) [] h = ground arith
deep_equal_iff (s ∷ ss) (t ∷ ts) h = ground (arith, eqb_iff s t, deep_equal_iff ss ts)

sort_strings_perm :
    {ms ns : List IdMappingSpec}
    → Permᴰ ms ns
    → sort_strings (map mapping_text ms) ≡ sort_strings (map mapping_text ns)
unfolding sort_strings
sort_strings_perm Permᴰ.nil = refl
sort_strings_perm (Permᴰ.cons e p) = cc (ap mapping_text e, sort_strings_perm p)
sort_strings_perm (Permᴰ.swap {a} {b} {l = l} e f) =
    insert_str_comm (mapping_text a) (mapping_text b) (sort_strings (map mapping_text l))
    ∙ cc (ap mapping_text e, ap mapping_text f)
sort_strings_perm (Permᴰ.trans p q) = sort_strings_perm p ∙ sort_strings_perm q

-- The normal form of mappings does not depend on their order.
pub normalize_mappings_perm :
    (ms ns : List IdMappingSpec) → Permᴰ ms ns → normalize_mappings ms ≡ normalize_mappings ns
unfolding normalize_mappings
normalize_mappings_perm ms ns p = sort_strings_perm p
