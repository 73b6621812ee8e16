-- ===== src/Tests/Files.antt =====
-- A file system in memory: the paths there are, the texts of the files, and the locks held.
use groot_btrfs.Base.{
  refl, subst, All, Bool, true, List, [], ◌∷◌, arith, ℕ, suc, ◌-◌, if◌then◌else◌,
}
use groot_btrfs.Base.FilePath.Laws.{IsName}
use groot_btrfs.Base.Int.{pos, eqb_ℤ}
use groot_btrfs.Base.Str.{Str, codes, eqb, contains}
use groot_btrfs.Base.Effect.{M, ⊤, ok, err, not_exist, exist, permission}
use groot_btrfs.Base.Os.{Os, FileInfo}
use groot_btrfs.Groot.{MountInfo, Locksmith}
use groot_btrfs.Gc.{insert_key, delete_key}
use groot_btrfs.Gc.Orphans.{contains-insert_key, contains-delete_key, eqb_self}
use groot_btrfs.Store.Cloner.{ImageCloner, ImageDriverSpec}
use groot_btrfs.Store.Cloner.Laws as Cloner
use groot_btrfs.Store.Manager.{Manager, missing, namespace_path}
use groot_btrfs.Store.Manager.Laws as Manager
use groot_btrfs.Store.Manager.Delete as Delete

pub record Files : Type 0 where
  pub paths : List Str
  pub held : ℕ

abbrev pub there : Files → Str → Bool
there w = contains w.paths

abbrev pub a_directory : FileInfo
a_directory = record { is_dir = true; mode = 0o755; uid = pos 0; gid = pos 0 }

abbrev pub look : Str → M Files FileInfo
look p w = (if contains w.paths p then ok a_directory else err not_exist, w)

-- The owner 13 is refused.
unfoldable pub file_os : Os Files
file_os = record {
  getuid = pos 0;
  getgid = pos 0;
  geteuid = pos 0;
  stat = look;
  lstat = look;
  mkdir = λ p mode w.
      if contains w.paths p
      then (err exist, w)
      else (ok tt, record w { paths = insert_key p w.paths });
  mkdir_all = λ p mode w. (ok tt, record w { paths = insert_key p w.paths });
  chown = λ p u g w. (if eqb_ℤ u (pos 13) then err permission else ok tt, w);
  chmod = λ p mode w. (ok tt, w);
  remove = λ p w. (ok tt, record w { paths = delete_key p w.paths });
  remove_all = λ p w. (ok tt, record w { paths = delete_key p w.paths });
  rename = λ from to w. (ok tt, w);
  read_dir = λ p w. (ok (codes "img" ∷ []), w);
  read_file = λ p w. (ok [], w);
  write_file = λ p text mode w. (ok tt, record w { paths = insert_key p w.paths });
  truncate = λ p n w. (ok tt, w);
  run = λ command arguments w. (([], ok tt), w);
}

abbrev pub mounted : ImageDriverSpec → MountInfo
mounted spec = record {
  destination = codes "/";
  type = codes "btrfs";
  source = spec.image_path;
  options = [];
}

unfoldable pub cloner : ImageCloner Files
unfolding file_os
cloner = record {
  image_driver = record {
    create_image = λ spec w. (ok (mounted spec), w);
    destroy_image = λ p w. (ok tt, record w { paths = delete_key p w.paths });
    fetch_stats = λ p w. (err not_exist, w);
  };
  store_path = codes "/s";
  os = file_os;
  hex_sha256 = λ volume. volume;
}

pub cloner-IsFileSystem : Cloner.IsFileSystem there cloner
unfolding cloner
cloner-IsFileSystem = record {
  stat_same = λ w p. refl;
  stat_there = λ w p. ground arith;
  chown_same = λ w p u g. refl;
  mkdir_there = λ w p mode e. ground (arith, contains-insert_key p p w.paths, eqb_self p);
  mkdir_keeps = λ w p q mode h. ground (arith, contains-insert_key p q w.paths);
  create_keeps = λ w spec q h. h;
  remove_gone = λ w p e. ground (arith, contains-delete_key p p w.paths, eqb_self p);
}

abbrev pub store_path : Str
store_path = codes "/s"

-- Destroys what is not the store itself.
abbrev pub destroy_inside : Str → M Files ⊤
destroy_inside p w =
    if eqb p store_path
    then (err permission, w)
    else (ok tt, record w { paths = delete_key p w.paths })

unfoldable pub manager : Manager Files
unfolding file_os namespace_path
manager = record {
  store_path = store_path;
  image_driver = record {
    create_image = λ spec w. (ok (mounted spec), w);
    destroy_image = destroy_inside;
    fetch_stats = λ p w. (err not_exist, w);
  };
  volume_driver = record {
    volume_path = λ v w. (err not_exist, w);
    create_volume = λ parent id w. (err not_exist, w);
    destroy_volume = λ id w. (ok tt, w);
    volumes = λ w. (ok [], w);
    move_volume = λ from to w. (ok tt, w);
    write_volume_meta = λ id meta w. (ok tt, w);
    handle_opaque_whiteouts = λ id paths w. (ok tt, w);
  };
  store_driver = record {
    configure_store = λ p u g w. (ok tt, w);
    validate_file_system = λ p w. (ok tt, w);
    init_filesystem = λ file p w. (ok tt, w);
  };
  apply_mappings = λ uids gids w.
      (ok tt, record w { paths = insert_key (codes "/s/meta/namespace.json") w.paths });
  os = file_os;
}

pub manager-IsFileSystem : Manager.IsFileSystem there manager
unfolding manager missing namespace_path
manager-IsFileSystem = record {
  stat_same = λ w p. refl;
  stat_missing = λ w p. ground arith;
  lstat_same = λ w p. refl;
  lstat_there = λ w p found e is_dir. ground arith;
  chown_same = λ w p u g. refl;
  chmod_same = λ w p mode. refl;
  mkdir_there = λ w p mode e. ground (arith, contains-insert_key p p w.paths, eqb_self p);
  mkdir_keeps = λ w p q mode h. ground (arith, contains-insert_key p q w.paths);
  configure_keeps = λ w p q u g h. h;
  apply_there = λ w uids gids e.
      contains-insert_key (codes "/s/meta/namespace.json") (codes "/s/meta/namespace.json") w.paths;
}

unfoldable pub file_locks : Locksmith Files
file_locks = record {
  lock = λ key w. (ok 7, record w { held = suc w.held });
  unlock = λ file w. (ok tt, record w { held = w.held - 1 });
}

abbrev pub delete_view : Files → Delete.View
delete_view w = record { there = contains w.paths store_path; held = w.held }

img-IsName : IsName (codes "img")
unfolding eqb
img-IsName = record { no_slash = refl; full = refl; no_dot = refl; no_dots = refl }

pub manager-IsStore : Delete.IsStore delete_view manager file_locks
unfolding manager missing file_locks
manager-IsStore = record {
  stat_same = λ w p. refl;
  stat_missing = λ w. ground arith;
  read_dir_same = λ w p. refl;
  read_dir_names =
      λ w p names e. subst (All IsName) {x = codes "img" ∷ []} (ground arith) (img-IsName, tt);
  image_same = λ w name plain.
      ground (arith, contains-delete_key (Delete.image_path manager name) store_path w.paths);
  volume_same = λ w id plain. refl;
  remove_there = λ w. ground (arith, contains-delete_key store_path store_path w.paths);
  remove_held = λ w. refl;
  lock_there = λ w key. refl;
  lock_held = λ w key. refl;
  unlock_there = λ w file. refl;
  unlock_held = λ w file. refl;
}
