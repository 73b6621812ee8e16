-- ===== src/Tests/Disk.antt =====
-- The btrfs driver over paths in memory.
use groot_btrfs.Base.{
  ◌≡◌, refl, ap, inl, inr, Bool-cases, Bool, true, false, List, [], ◌∷◌, ◌++◌, arith, if◌then◌else◌,
}
use groot_btrfs.Base.Int.{pos}
use groot_btrfs.Base.Str.{
  Str, codes, eqb, eqb_iff, contains, contains_str, has_prefix, replace_first,
}
use groot_btrfs.Base.Str.Laws.{has_prefix_self}
use groot_btrfs.Base.Os.{Os, FileInfo}
use groot_btrfs.Base.Commands.{Output}
use groot_btrfs.Base.Effect.{⊤, Error, Result, ok, err, not_exist, is_exist, succeeded}
use groot_btrfs.Gc.{insert_key, delete_key}
use groot_btrfs.Gc.Orphans.{contains-insert_key, contains-delete_key, eqb_self}
use groot_btrfs.Puller.{UnpackSpec, BaseImagePuller, pull}
use groot_btrfs.Puller.Store.{View, IsDriver, IsAside, IsLocking}
use groot_btrfs.Puller.Layers.{Builds, Closed, ValidLayers}
use groot_btrfs.Groot.Creator.{chain_ids}
use mathlib.Core.List.{reverse}
use groot_btrfs.Base.FilePath.{join, base}
use groot_btrfs.Base.Decimal.{itoa}
use groot_btrfs.Btrfs.Volumes.Pull.{btrfs_puller, pull_btrfs}
use groot_btrfs.Tests.Puller.{flat-StaysIn, layers, two_layers, spec}
use groot_btrfs.Btrfs.{Driver}
use groot_btrfs.Btrfs.Volumes.{
  volume_driver, volume_path, create_volume, handle_opaque_whiteouts, write_volume_meta,
  move_volume,
}
use groot_btrfs.Btrfs.Volumes.Kernel.{Files, beneath, IsKernel}
use groot_btrfs.Gc.View.{IsWriter}
use groot_btrfs.Gc.Progress.{root_of}
use groot_btrfs.Btrfs.Volumes.Clean.{IsTidy, gc_view, volume_driver-IsWriter}
use groot_btrfs.Btrfs.Volumes.Paths.{volumes_path}
use groot_btrfs.Btrfs.Volumes.Refine.{volumes_of, volume_driver-IsDriver}
use groot_btrfs.Tests.Memory.{World, collector, memory_os, puller}

abbrev pub no_info : FileInfo
no_info = record { is_dir = true; mode = 8388608; uid = pos 0; gid = pos 0 }

unfoldable pub disk_os : Os World
unfolding memory_os
disk_os = record memory_os {
  stat = λ p w. if contains w.volumes p then (ok no_info, w) else (err not_exist, w);
  remove = λ p w. (ok tt, record w { volumes = delete_key p w.volumes });
  write_file = λ p text mode w. (ok tt, record w { volumes = insert_key p w.volumes });
  rename = λ from to w.
      if contains w.volumes from
      then (ok tt, record w { volumes = insert_key to (delete_key from w.volumes) })
      else (err not_exist, w);
}

abbrev done : Output
done = record { stdout = []; stderr = []; combined = []; ended = ok tt }

-- `btrfs subvolume` with the words that follow; other commands do nothing.
unfoldable pub run_words : List Str → World → World
run_words (s ∷ verb ∷ path ∷ []) w =
    if eqb verb (codes "create")
    then record w { volumes = insert_key path w.volumes }
    else if eqb verb (codes "delete")
    then record w { volumes = delete_key path w.volumes }
    else w
run_words (s ∷ verb ∷ from ∷ to ∷ []) w =
    if eqb verb (codes "snapshot") then record w { volumes = insert_key to w.volumes } else w
run_words _ w = w

unfoldable pub disk : Driver World
unfolding disk_os run_words
disk = record {
  drax_bin_path = codes "drax";
  btrfs_bin_path = codes "btrfs";
  mkfs_bin_path = codes "mkfs.btrfs";
  meta = record {
    store_path = codes "/s";
    os = disk_os;
    encode = λ meta. codes "{}";
    decode = λ text. ok (record { size = pos 0 });
  };
  commands = record {
    run = λ command arguments w. (done, run_words arguments w);
    look_path = λ name w. (ok (codes "/bin/drax"), w);
    sprintf = λ format. format;
  };
  statfs_type = λ path w. (ok (pos 0), w);
}

abbrev pub disk_files : World → Files
disk_files w = record { there = contains w.volumes; held = w.held }

pub beneath-ne : (p q : Str) → beneath p q ≡ false → eqb p q ≡ false
beneath-ne p q h = ground (arith, eqb_iff p q, has_prefix_self (p ++ (b'/' ∷ [])))

run_words_held : (arguments : List Str) (w : World) → (run_words arguments w).held ≡ w.held
unfolding run_words
run_words_held [] w = refl
run_words_held (a ∷ []) w = refl
run_words_held (a ∷ b ∷ []) w = refl
run_words_held (a ∷ b ∷ c ∷ []) w = ground arith
run_words_held (a ∷ b ∷ c ∷ e ∷ []) w = ground arith
run_words_held (a ∷ b ∷ c ∷ e ∷ f ∷ _) w = refl

inserted :
    (p q : Str) (ps : List Str) → eqb p q ≡ false → contains (insert_key p ps) q ≡ contains ps q
inserted p q ps h = ground (arith, contains-insert_key p q ps)

deleted :
    (p q : Str) (ps : List Str) → eqb p q ≡ false → contains (delete_key p ps) q ≡ contains ps q
deleted p q ps h = ground (arith, contains-delete_key p q ps)

-- A path that is not there is not reported as one that is.
not_there : (e : Error) (r : Result ⊤) → r ≡ err not_exist → r ≡ err e → is_exist e ≡ true → ⊥
unfolding is_exist
not_there e r g h k = cc (ap reported g, ap reported h, k)
  where
    reported : Result ⊤ → Bool
    reported (ok _) = false
    reported (err x) = is_exist x

disk-IsKernel : IsKernel disk_files disk
unfolding disk eqb
disk-IsKernel = record {
  stat_files = λ w p. ground arith;
  stat_there = λ w p. ground arith;
  look_path_files = λ w name. refl;
  drax_files = λ w path. refl;
  run_held = λ w command arguments. run_words_held arguments w;
  create_other = λ w to q h. inserted to q w.volumes (beneath-ne to q h);
  snapshot_other = λ w from to q h. inserted to q w.volumes (beneath-ne to q h);
  delete_other = λ w path q h. deleted path q w.volumes (beneath-ne path q h);
  remove_other = λ w p q h. deleted p q w.volumes (ground (arith, eqb_iff p q));
  remove_held = λ w p. refl;
  write_other = λ w p text q mode h. inserted p q w.volumes (ground (arith, eqb_iff p q));
  write_held = λ w p text mode. refl;
  rename_there = λ w from to h.
      ground (arith, contains-insert_key to to (delete_key from w.volumes), eqb_self to);
  rename_other = λ w from to q h k. ground (
    arith,
    inserted to q (delete_key from w.volumes) (beneath-ne to q k),
    deleted from q w.volumes (beneath-ne from q h),
  );
  rename_failed = λ w from to h. ground arith;
  rename_exist = λ w from to e h k. elim (Bool-cases (contains w.volumes from)) [
    | inl found ↦ absurd (ground (arith, found))
    | inr missing ↦ absurd (not_there e _ (ground (arith, missing)) h k)
  ];
  rename_held = λ w from to. ground arith;
}

volume_driver-IsDriver_example :
    IsDriver
      (λ w. volumes_of disk (disk_files w))
      (volumes_path (codes "/s"))
      (record puller { volume_driver = volume_driver disk })
unfolding disk
volume_driver-IsDriver_example =
    volume_driver-IsDriver disk_files disk disk-IsKernel b'/' (codes "s") refl puller

abbrev empty : World
empty = record { volumes = []; images = []; registry = []; held = 0 }

abbrev btrfs : BaseImagePuller World Str
btrfs = btrfs_puller disk_files disk puller

abbrev disk_view : World → View
disk_view w = volumes_of disk (disk_files w)

unpack_same : (w : World) (spec : UnpackSpec Str) → (puller.unpack spec w).1 ≡ w
unfolding puller
unpack_same w spec = ground arith

disk-IsAside : IsAside disk_view (volumes_path (codes "/s")) btrfs
unfolding puller
disk-IsAside = record {
  stream_view = λ w url info. refl;
  unpack_other =
      λ w spec name v named located other. ap (λ t. (disk_view t).has v) (unpack_same w spec);
  unpack_held = λ w spec. ap (λ t. t.held) (unpack_same w spec);
  unpack_plain = λ w spec output e. ground arith;
  close_view = λ w stream. refl;
  nano_view = λ w. refl;
  rand_view = λ w. refl;
  chown_view = λ w path u g. refl;
  stat_view = λ w path. refl;
  mkdir_view = λ w path mode inside. refl;
}

disk-IsLocking : IsLocking disk_view (volumes_path (codes "/s")) btrfs
unfolding puller
disk-IsLocking = record {
  lock_has = λ w key v. refl;
  lock_held = λ w key. refl;
  unlock_has = λ w file v. refl;
  unlock_held = λ w file. refl;
}

layers-Valid : ValidLayers (volumes_path (codes "/s")) (reverse layers)
unfolding contains_str contains chain_ids join
layers-Valid = (
  record {
    name = record { no_slash = refl; full = refl; no_dot = refl; no_dots = refl };
    outside = refl;
    finished = refl;
  },
  refl,
  flat-StaysIn (volumes_path (codes "/s")) [] refl,
  (
    record {
      name = record { no_slash = refl; full = refl; no_dot = refl; no_dots = refl };
      outside = refl;
      finished = refl;
    },
    refl,
    flat-StaysIn (volumes_path (codes "/s")) [] refl,
    tt,
  ),
)

empty-Closed : Closed (disk_view empty) (reverse layers)
unfolding contains
empty-Closed = ground arith

pull_run :
    (pull btrfs two_layers (spec (pos 0)) empty).1.volumes
    ≡ codes "/s/volumes/top"
      ∷ codes "/s/meta/volume-top"
      ∷ codes "/s/volumes/base"
      ∷ codes "/s/meta/volume-base"
      ∷ []
unfolding pull puller contains has_prefix replace_first insert_key delete_key itoa volume_path disk
    create_volume handle_opaque_whiteouts base write_volume_meta move_volume
pull_run = refl

pull_btrfs_example :
    Builds
      (volumes_path (codes "/s"))
      (reverse layers)
      (succeeded (pull btrfs two_layers (spec (pos 0)) empty).0)
      (disk_view empty)
      (disk_view (pull btrfs two_layers (spec (pos 0)) empty).1)
unfolding disk
pull_btrfs_example =
    pull_btrfs disk_files disk puller b'/' (codes "s") refl disk-IsKernel disk-IsAside
      disk-IsLocking two_layers (spec (pos 0)) empty layers-Valid empty-Closed

disk-IsTidy : IsTidy disk_files (λ w. w.images) (λ w id. []) disk
unfolding disk eqb
disk-IsTidy = record {
  rename_keeps = λ w from to q out h. ground (
    arith,
    contains-insert_key to q (delete_key from w.volumes),
    contains-delete_key from q w.volumes,
    beneath-ne from q out,
  );
  rename_from = λ w from to h. ground (arith, h);
  rename_gone = λ w from to free h. ground (
    arith,
    contains-insert_key to from (delete_key from w.volumes),
    contains-delete_key from from w.volumes,
    eqb_self from,
    eqb_iff to from,
    ap (contains w.volumes),
  );
  delete_gone = λ w path h. ground (arith, contains-delete_key path path w.volumes, eqb_self path);
  stat_images = λ w p. ground arith;
  stat_deps = λ w p. refl;
}

-- The collector over the volumes of the btrfs driver.
disk-IsWriter :
    IsWriter
      (gc_view disk_files (λ w. w.images) (λ w id. []) disk)
      (root_of (volumes_path (codes "/s")))
      (record collector { volume_driver = volume_driver disk })
unfolding disk
disk-IsWriter =
    volume_driver-IsWriter disk_files (λ w. w.images) (λ w id. []) disk disk-IsKernel disk-IsTidy
      b'/' (codes "s") refl collector
