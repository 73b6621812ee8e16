-- ===== src/Store/Locks.antt =====
-- store/locksmith/filesystem.go: the locks on files of the store. The system calls are a parameter.
pub mod Laws
use groot_btrfs.Base.{Bool, List, [], ◌∷◌, ◌++◌, if◌then◌else◌, ◌==◌}
use groot_btrfs.Base.Str.{Str, codes}
use groot_btrfs.Base.FilePath.{join}
use groot_btrfs.Base.Effect.{M, ⊤, Result, ok, err, pure, ◌>>=◌, ◌>>◌, wrapping, deferring}
use groot_btrfs.Groot as Interface
use groot_btrfs.Groot.{File}
use groot_btrfs.Store.{locks_dir_name}

-- `syscall.LOCK_EX`, `LOCK_SH` and `LOCK_UN`
pub data LockType : Type 0 where
  exclusive shared unlocked : LockType

-- `open_file` is `os.OpenFile(path, os.O_CREATE|os.O_WRONLY, 0600)`.
pub record FileLocks (W : Type 0) : Type 0 where
  pub open_file : Str → M W File
  pub flock : File → LockType → M W ⊤
  pub close : File → M W ⊤

pub record FileSystem (W : Type 0) : Type 0 where
  pub store_path : Str
  pub lock_type : LockType
  pub files : FileLocks W

unfoldable pub new_exclusive_file_system : {W : Type 0} → Str → FileLocks W → FileSystem W
new_exclusive_file_system store_path files = record {
  store_path = store_path;
  lock_type = exclusive;
  files = files;
}

unfoldable pub new_shared_file_system : {W : Type 0} → Str → FileLocks W → FileSystem W
new_shared_file_system store_path files = record {
  store_path = store_path;
  lock_type = shared;
  files = files;
}

-- `strings.Replace(key, "/", "", -1)`
unfoldable pub without_slashes : Str → Str
without_slashes [] = []
without_slashes (c ∷ key) = let rest = without_slashes key in if c == b'/' then rest else c ∷ rest

module _ {W : Type 0} (l : FileSystem W) where
  unfoldable pub lock_path : Str → Str
  unfolding join
  lock_path key = join (l.store_path ∷ locks_dir_name ∷ (key ++ codes ".lock") ∷ [])

  unfoldable pub lock : Str → M W File
  unfolding lock_path without_slashes
  lock key = do
    let name = without_slashes key
    lock_file ←
        wrapping (codes "creating lock file for key `" ++ (name ++ codes "`"))
          (l.files.open_file (lock_path name))
    l.files.flock lock_file l.lock_type
    pure lock_file

  unfoldable pub unlock : File → M W ⊤
  unlock lock_file = deferring (l.files.close lock_file) (l.files.flock lock_file unlocked)

  -- The locks as the other parts see them.
  abbrev pub locks_interface : Interface.Locksmith W
  locks_interface = record { lock = lock; unlock = unlock }
