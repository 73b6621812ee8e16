-- ===== src/Tests/Btrfs.antt =====
-- Runs and concrete cases of the btrfs driver and of drax.
use groot_btrfs.Base.{◌++◌, ◌≡◌, refl, List, [], ◌∷◌, ◌&&◌, any, all, arith}
use groot_btrfs.Base.Int.{pos}
use groot_btrfs.Base.Str.{Str, codes, contains, has_prefix, contains_str}
use groot_btrfs.Base.Effect.{ok, succeeded}
use groot_btrfs.Btrfs.{mount_options}
use groot_btrfs.Btrfs.Usage.{parse_usage}
use groot_btrfs.Btrfs.Usage.Laws.{usage_text, parse_usage-text}
use groot_btrfs.Btrfs.Mounts.{check_mounts, check_mounts_iff}
use groot_btrfs.Drax.Lister.{extract_paths, sort_down, mount_point_from}
use groot_btrfs.Drax.Lister.Laws.{listed_iff, names_path, IsDescending}

-- The header of the table, and the group.
abbrev front : Str
front = codes "group         rfer         excl" ++ (10 ∷ codes "0/257        ")

parse_usage-text_example :
    parse_usage (usage_text b'q' front 3145728 (codes "     ") 16384 (10 ∷ []))
    ≡ ok (record {
      disk_usage = record { total_bytes_used = pos 3145728; exclusive_bytes_used = pos 16384 };
    })
parse_usage-text_example =
    parse_usage-text b'q' front 3145728 (codes "     ") 16384 (10 ∷ []) refl refl refl
      (ground arith) (ground arith)

abbrev mounts : List Str
mounts =
    codes "proc /proc proc rw 0 0"
    ∷ codes "/dev/loop0 /mnt btrfs rw 0 0"
    ∷ codes "x btrfs /mnt rw,user_subvol_rm_allowed"
    ∷ []

abbrev wanted : List Str
wanted = codes "user_subvol_rm_allowed" ∷ []

check_mounts_iff_example :
    succeeded (check_mounts (codes "/mnt") (codes "btrfs") wanted mounts)
    ≡ all (λ o. contains_str (codes "x btrfs /mnt rw,user_subvol_rm_allowed") o) wanted
unfolding contains_str
check_mounts_iff_example = check_mounts_iff (codes "/mnt") (codes "btrfs") wanted mounts

abbrev image : Str
image = codes "/m/images/foo"

abbrev subvolumes : List Str
subvolumes =
    codes "ID 257 gen 9 top level 5 path images/foo/rootfs"
    ∷ codes "ID 258 gen 9 top level 257 path images/foo/rootfs/inner"
    ∷ codes "ID 259 gen 9 top level 5 path volumes/base"
    ∷ []

abbrev found : List Str
found = codes "/m/images/foo/rootfs" ∷ codes "/m/images/foo/rootfs/inner" ∷ []

extract_paths_run : extract_paths (codes "/m") image subvolumes ≡ ok found
unfolding extract_paths
extract_paths_run = refl

listed_iff_example :
    ((v : Str)
      → contains (sort_down found) v
        ≡ (has_prefix v image && any (names_path (codes "/m") v) subvolumes))
    × IsDescending (sort_down found)
listed_iff_example = listed_iff (codes "/m") image subvolumes found extract_paths_run

-- The subvolumes of an image whose id continues the id asked for are listed too.
sibling_run :
    extract_paths
      (codes "/m")
      image
      (codes "ID 260 gen 9 top level 5 path images/foobar/rootfs" ∷ [])
    ≡ ok (codes "/m/images/foobar/rootfs" ∷ [])
unfolding extract_paths
sibling_run = refl

inner_first :
    sort_down found ≡ codes "/m/images/foo/rootfs/inner" ∷ codes "/m/images/foo/rootfs" ∷ []
unfolding sort_down
inner_first = refl

mount_options_run :
    (mount_options [] ≡ codes "user_subvol_rm_allowed,rw")
    × (mount_options (codes "remount") ≡ codes "remount,user_subvol_rm_allowed,rw")
unfolding mount_options
mount_options_run = (refl, refl)

mount_point_run :
    mount_point_from 20 (codes "x /m btrfs rw") (codes "/m/images/foo") ≡ ok (codes "/m")
unfolding mount_point_from
mount_point_run = refl
