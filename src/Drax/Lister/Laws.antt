-- ===== src/Drax/Lister/Laws.antt =====
-- Which subvolumes are listed, and in which order.
use groot_btrfs.Base.{
  ◌≡◌, refl, ◌∙◌, Bool, true, false, ◌&&◌, ◌||◌, List, [], ◌∷◌, arith, any, All, inl, inr, Option,
  none, some, Option-cases, Bool-cases,
}
use groot_btrfs.Base.Str.{Str, eqb, eqb_iff, has_prefix, contains}
use groot_btrfs.Base.Str.Split.{trim_space}
use groot_btrfs.Base.FilePath.{join}
use groot_btrfs.Base.Effect.{ok, Result-cases}
use groot_btrfs.Groot.Namespacer.{leb_str}
use groot_btrfs.Groot.Namespacer.Order.{leb_str_total, leb_str_trans}
use groot_btrfs.Drax.Lister.{subvolume_path, extract_paths, insert_down, sort_down}

-- The absolute path that a line names.
abbrev pub path_of_line : Str → Str → Option Str
path_of_line mount_point line = elim (subvolume_path line) [
  | none ↦ none
  | some name ↦ some (join (mount_point ∷ trim_space name ∷ []))
]

abbrev pub names_path : Str → Str → Str → Bool
names_path mount_point v line = elim (path_of_line mount_point line) [
  | none ↦ false
  | some path ↦ eqb path v
]

pub extract_paths_iff :
    (mount_point path : Str) (output out : List Str) (v : Str)
    → extract_paths mount_point path output ≡ ok out
    → contains out v ≡ (has_prefix v path && any (names_path mount_point v) output)
unfolding extract_paths contains
extract_paths_iff mount_point path [] out v e = ground arith
extract_paths_iff mount_point path (line ∷ output) out v e =
    elim (Option-cases (subvolume_path line)) [
      | inl bad ↦ absurd (ground (arith, bad))
      | inr (name, good) ↦
          let found = join (mount_point ∷ trim_space name ∷ []) in
          elim (Result-cases (extract_paths mount_point path output)) [
            | inr (x, failed) ↦ absurd (ground (arith, good, failed))
            | inl (rest, fine) ↦ ground (
              arith,
              good,
              fine,
              extract_paths_iff mount_point path output rest v fine,
              eqb_iff found v,
            )
          ]
    ]

contains-insert_down :
    (s v : Str) (ss : List Str) → contains (insert_down s ss) v ≡ (eqb s v || contains ss v)
unfolding insert_down contains
contains-insert_down s v [] = refl
contains-insert_down s v (t ∷ ss) = ground (arith, contains-insert_down s v ss)

pub contains-sort_down : (v : Str) (ss : List Str) → contains (sort_down ss) v ≡ contains ss v
unfolding sort_down contains
contains-sort_down v [] = refl
contains-sort_down v (s ∷ ss) =
    ground (arith, contains-insert_down s v (sort_down ss), contains-sort_down v ss)

-- No string is above one that stands before it.
abbrev pub IsDescending : List Str → Type 0
IsDescending [] = Unit
IsDescending (s ∷ ss) = All (λ t. leb_str t s ≡ true) ss × IsDescending ss

All-insert_down :
    (s top : Str) (ss : List Str)
    → leb_str s top ≡ true
    → All (λ t. leb_str t top ≡ true) ss
    → All (λ t. leb_str t top ≡ true) (insert_down s ss)
unfolding insert_down
All-insert_down s top [] h all = (h, tt)
All-insert_down s top (t ∷ ss) h all = elim (Bool-cases (leb_str t s)) [
  | inl below ↦ rw below (h, all)
  | inr above ↦ rw above (all.0, All-insert_down s top ss h all.1)
]

All-below :
    (s t : Str) (ss : List Str)
    → leb_str s t ≡ true
    → All (λ u. leb_str u s ≡ true) ss
    → All (λ u. leb_str u t ≡ true) ss
All-below s t [] h all = tt
All-below s t (u ∷ ss) h all = (leb_str_trans u s t all.0 h, All-below s t ss h all.1)

insert_down-IsDescending :
    (s : Str) (ss : List Str) → IsDescending ss → IsDescending (insert_down s ss)
unfolding insert_down
insert_down-IsDescending s [] d = (tt, tt)
insert_down-IsDescending s (t ∷ ss) d = elim (Bool-cases (leb_str t s)) [
  | inl below ↦ rw below ((below, All-below t s ss below d.0), d)
  | inr above ↦
      let least : leb_str s t ≡ true = ground (arith, above, leb_str_total s t) in
      rw above (All-insert_down s t ss least d.0, insert_down-IsDescending s ss d.1)
]

pub sort_down-IsDescending : (ss : List Str) → IsDescending (sort_down ss)
unfolding sort_down
sort_down-IsDescending [] = tt
sort_down-IsDescending (s ∷ ss) =
    insert_down-IsDescending s (sort_down ss) (sort_down-IsDescending ss)

-- Where the lines of `btrfs subvolume list` are read, a path is listed exactly if a line names it and
-- it begins with the path asked for; and no path is listed above one that stands before it, so that
-- a subvolume comes before the ones it lies in.
pub listed_iff :
    (mount_point path : Str) (output out : List Str)
    → extract_paths mount_point path output ≡ ok out
    → ((v : Str)
        → contains (sort_down out) v ≡ (has_prefix v path && any (names_path mount_point v) output))
      × IsDescending (sort_down out)
listed_iff mount_point path output out e = (
  λ v. contains-sort_down v out ∙ extract_paths_iff mount_point path output out v e,
  sort_down-IsDescending out,
)
