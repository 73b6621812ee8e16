-- ===== src/Drax/Lister.antt =====
-- store/filesystems/btrfs/drax/lister/btrfs.go and the command `list` of drax.
pub mod Laws
use groot_btrfs.Base.{
  ℕ, zero, suc, Bool, true, false, List, [], ◌∷◌, ◌++◌, if◌then◌else◌, not, ◌==◌, length, Option,
  none, some, get_elem?,
}
use groot_btrfs.Base.Str.{Str, codes, eqb, has_prefix, contains_str, size}
use groot_btrfs.Base.Str.Split.{split_on, trim_space, lines, join_with}
use groot_btrfs.Base.FilePath.{join, dir}
use groot_btrfs.Base.Os.{Os}
use groot_btrfs.Base.Commands.{Commands, Output}
use groot_btrfs.Base.Effect.{M, ⊤, Error, Result, ok, err, wrap, fatal, pure, lift, ◌>>=◌, wrapping}
use groot_btrfs.Groot.Namespacer.{leb_str}

pub record BtrfsLister (W : Type 0) : Type 0 where
  pub btrfs_bin : Str
  pub commands : Commands W
  pub os : Os W

-- The ninth field of a line of nine fields.
unfoldable pub subvolume_path : Str → Option Str
unfolding split_on trim_space
subvolume_path line =
    let fields = split_on 0x20 (trim_space line) in
    if length fields == 9 then get_elem? fields 8 else none

-- The loop of `extractPaths` over the lines that are left.
unfoldable pub extract_paths : Str → Str → List Str → Result (List Str)
unfolding subvolume_path join trim_space has_prefix
extract_paths mount_point path [] = ok []
extract_paths mount_point path (line ∷ output) = elim (subvolume_path line) [
  | none ↦ err (Error.new (codes "invalid output: " ++ line))
  | some name ↦
      let absolute_path = join (mount_point ∷ trim_space name ∷ []) in
      elim (extract_paths mount_point path output) [
        | err e ↦ err e
        | ok subvolumes ↦
            ok (if has_prefix absolute_path path then absolute_path ∷ subvolumes else subvolumes)
      ]
]

-- The loop of `findMountPoint`, which a path that leads to no separator would keep in the loop.
unfoldable pub mount_point_from : ℕ → Str → Str → Result Str
unfolding contains_str dir eqb
mount_point_from zero contents path = err fatal
mount_point_from (suc fuel) contents path =
    let rest = mount_point_from fuel contents (dir path) in
    if eqb path (codes "/")
    then err (Error.new (codes "can't find mount point"))
    else if contains_str contents path
    then ok path
    else rest

-- `sort.Sort(sort.Reverse(…))`: the greatest string first.
unfoldable pub insert_down : Str → List Str → List Str
unfolding leb_str
insert_down s [] = s ∷ []
insert_down s (t ∷ ts) = let rest = insert_down s ts in if leb_str t s then s ∷ t ∷ ts else t ∷ rest

unfoldable pub sort_down : List Str → List Str
unfolding insert_down
sort_down [] = []
sort_down (s ∷ ss) = insert_down s (sort_down ss)

module _ {W : Type 0} (l : BtrfsLister W) where
  unfoldable pub find_mount_point : Str → M W Str
  unfolding mount_point_from
  find_mount_point path = do
    contents ← wrapping (codes "reading mounts") (l.os.read_file (codes "/proc/self/mounts"))
    lift (mount_point_from (suc (size path)) contents path)

  unfoldable pub run_list : Str → M W Str
  unfolding trim_space
  run_list image_path w =
      let (output, w1) =
        l.commands.run l.btrfs_bin (codes "subvolume" ∷ codes "list" ∷ image_path ∷ []) w in
      elim output.ended [
        | ok _ ↦ (ok output.stdout, w1)
        | err _ ↦ (
          err (
              Error.new (
                codes "list subvolumes: "
                ++ (trim_space output.stdout ++ (codes ": " ++ trim_space output.stderr)))),
          w1,
        )
      ]

  unfoldable pub list_subvolumes : Str → M W (List Str)
  unfolding run_list find_mount_point extract_paths sort_down lines
  list_subvolumes image_path = do
    output ← run_list image_path
    mount_point ← wrapping (codes "find mount point") (find_mount_point image_path)
    volumes ←
        wrapping (codes "parse subvolume list")
          (lift (extract_paths mount_point image_path (lines output)))
    pure (sort_down volumes)

  -- The command `list`: what it writes.
  unfoldable pub list_command : List Str → M W Str
  unfolding list_subvolumes join_with
  list_command (path ∷ []) = do volumes ← list_subvolumes path; pure (join_with 10 volumes)
  list_command arguments = λ w. (err (Error.new (codes "missing path argument")), w)
