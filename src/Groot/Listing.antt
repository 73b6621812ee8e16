-- ===== src/Groot/Listing.antt =====
-- groot/lister.go: the paths of the images. Package `os` lists a directory.
use groot_btrfs.Base.{List, [], ◌∷◌, map}
use groot_btrfs.Base.Str.{Str, codes}
use groot_btrfs.Base.FilePath.{join}
use groot_btrfs.Base.Os.{Os}
use groot_btrfs.Base.Effect.{M, pure, ◌>>=◌, wrapping}
use groot_btrfs.Store.{image_dir_name}

module _ {W : Type 0} (os : Os W) where
  unfoldable pub list_dirs : Str → M W (List Str)
  unfolding join
  list_dirs path = do files ← os.read_dir path; pure (map (λ name. join (path ∷ name ∷ [])) files)

  unfoldable pub list_images : Str → M W (List Str)
  unfolding list_dirs join
  list_images store_path =
      wrapping (codes "failed to list store path")
        (list_dirs (join (store_path ∷ image_dir_name ∷ [])))
