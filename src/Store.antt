-- ===== src/Store.antt =====
-- store/store.go: the directories of a store; the parts that work on them are the children.
pub mod Cloner
pub mod Manager
pub mod Dependencies
pub mod Locks
pub mod VolumeMeta
pub mod Measurer
use groot_btrfs.Base.{List, [], ◌∷◌}
use groot_btrfs.Base.Str.{Str, codes}
use groot_btrfs.Base.FilePath.{join}

abbrev pub image_dir_name : Str
image_dir_name = codes "images"

abbrev pub volumes_dir_name : Str
volumes_dir_name = codes "volumes"

abbrev pub locks_dir_name : Str
locks_dir_name = codes "locks"

abbrev pub meta_dir_name : Str
meta_dir_name = codes "meta"

abbrev pub temp_dir_name : Str
temp_dir_name = codes "tmp"

unfoldable pub store_folders : List Str
unfolding join
store_folders =
    image_dir_name
    ∷ volumes_dir_name
    ∷ meta_dir_name
    ∷ locks_dir_name
    ∷ temp_dir_name
    ∷ join (meta_dir_name ∷ codes "dependencies" ∷ [])
    ∷ []
