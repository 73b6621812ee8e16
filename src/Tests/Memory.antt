-- ===== src/Tests/Memory.antt =====
-- A store in memory: the collaborators of the collector, the puller and the creator as functions on
-- lists, with the laws that those parts rely on.
use groot_btrfs.Base.{
  ◌≡◌, refl, ap, ◌≢◌, true, false, ◌&&◌, List, [], ◌∷◌, ◌++◌, arith, ℕ, suc, ◌-◌, Option, none,
  some, Option-cases, inl, inr, if◌then◌else◌,
}
use groot_btrfs.Base.Int.{pos}
use groot_btrfs.Base.Str.{Str, codes, eqb, eqb_iff, contains, has_prefix, drop, size}
use groot_btrfs.Base.Str.Laws.{has_prefix-split, has_prefix-nil}
use groot_btrfs.Base.Effect.{M, Error, ok, err, not_exist, exist}
use groot_btrfs.Base.FilePath.Laws.{is_name, is_name-IsName}
use groot_btrfs.Base.Os.{Os}
use groot_btrfs.Groot.{OciImage, Locksmith, StoreMeasurer}
use groot_btrfs.Gc.{GarbageCollector, insert_key, delete_key}
use groot_btrfs.Gc.Orphans.{contains-insert_key, contains-delete_key, eqb_self}
use groot_btrfs.Gc.View as Collector
use groot_btrfs.Puller.{VolumeDriver, BaseImagePuller, UnpackSpec, UnpackOutput}
use groot_btrfs.Puller.Store as Pull
use groot_btrfs.Puller.Store.{at}

pub record World : Type 0 where
  pub volumes : List Str
  pub images : List Str
  pub registry : List (Str × List Str)
  pub held : ℕ

abbrev pub store : Str
store = codes "/s"

abbrev pub root : Str
root = codes "/s/"

abbrev pub lookup : List (Str × List Str) → Str → Option (List Str)
lookup [] id = none
lookup ((j, ids) ∷ r) id = if eqb j id then some ids else lookup r id

abbrev pub deps_of : List (Str × List Str) → Str → List Str
deps_of r id = elim (lookup r id) [ none ↦ [] | some ids ↦ ids ]

-- The plain names of a list.
abbrev pub named : List Str → List Str
named [] = []
named (v ∷ vs) = if is_name v then v ∷ named vs else named vs

contains-named : (vs : List Str) (v : Str) → contains (named vs) v ≡ (is_name v && contains vs v)
unfolding contains
contains-named [] v = ground arith
contains-named (u ∷ vs) v = ground (arith, contains-named vs v, eqb_iff u v, ap is_name)

-- The volumes after a move between two paths, if there is something to move.
unfoldable pub moved : Str → Str → List Str → Option (List Str)
moved from to vs =
    if has_prefix from root && (has_prefix to root && contains vs (drop 3 from))
    then some (insert_key (drop 3 to) (delete_key (drop 3 from) vs))
    else none

-- A move between two names.
moved_names :
    (from to : Str) (vs : List Str)
    → moved (at store from) (at store to) vs
      ≡ (if contains vs from then some (insert_key to (delete_key from vs)) else none)
unfolding moved has_prefix drop
moved_names from to vs = ground (arith, has_prefix-nil from, has_prefix-nil to)

unfoldable pub driver : VolumeDriver World
driver = record {
  volume_path = λ v w. if contains w.volumes v then (ok (root ++ v), w) else (err not_exist, w);
  create_volume = λ parent id w.
      if contains w.volumes id
      then (err exist, w)
      else (ok (root ++ id), record w { volumes = insert_key id w.volumes });
  destroy_volume = λ id w. (ok tt, record w { volumes = delete_key id w.volumes });
  volumes = λ w. (ok (named w.volumes), w);
  move_volume = λ from to w. elim (moved from to w.volumes) [
    | none ↦ (err not_exist, w)
    | some vs ↦ (ok tt, record w { volumes = vs })
  ];
  write_volume_meta = λ id meta w. (ok tt, w);
  handle_opaque_whiteouts = λ id paths w. (ok tt, w);
}

unfoldable pub locks : Locksmith World
locks = record {
  lock = λ key w. (ok 7, record w { held = suc w.held });
  unlock = λ file w. (ok tt, record w { held = w.held - 1 });
}

unfoldable pub measurer : StoreMeasurer World
measurer = record { usage = λ w. (ok (pos 500), w); cache_usage = λ vs w. (pos 0, w) }

unfoldable pub collector : GarbageCollector World
unfolding driver
collector = record {
  volume_driver = driver;
  image_ids = λ w. (ok w.images, w);
  dependencies =
      λ id w. elim (lookup w.registry id) [ none ↦ (err not_exist, w) | some ids ↦ (ok ids, w) ];
  order = λ keys. keys;
}

abbrev pub gc_view : World → Collector.View
gc_view w = record {
  has = λ v. is_name v && contains w.volumes v;
  images = w.images;
  deps = deps_of w.registry;
}

pub collector-IsReader : Collector.IsReader gc_view collector
unfolding collector
collector-IsReader = record {
  volumes_view = λ w. refl;
  volumes_has = λ w vs v e. ground (arith, contains-named w.volumes v);
  images_view = λ w. refl;
  images_eq = λ w ids e. ground arith;
  deps_view = λ w id. ground arith;
  deps_eq = λ w id used e. ground arith;
  order_contains = λ keys v. refl;
}

pub root_split : (s : Str) → has_prefix s root ≡ true → root ++ drop 3 s ≡ s
unfolding size
root_split s h = has_prefix-split s root h

moved_keeps :
    (u to v : Str) (vs out : List Str)
    → v ≢ u
    → contains vs v ≡ true
    → moved (root ++ u) to vs ≡ some out
    → contains out v ≡ true
unfolding moved drop has_prefix
moved_keeps u to v vs out other h e = ground (
  arith,
  has_prefix-nil u,
  contains-insert_key (drop 3 to) v (delete_key u vs),
  contains-delete_key u v vs,
  eqb_iff u v,
)

pub collector-IsWriter : Collector.IsWriter gc_view root collector
unfolding collector
collector-IsWriter = record {
  has_name = λ w v h. is_name-IsName v (ground (arith, h));
  path_view = λ w v. ground arith;
  path_eq = λ w v path named e. ground arith;
  move_keeps = λ w u to v named plain other h.
      elim (Option-cases (moved (root ++ u) to w.volumes)) [
        | inl stays ↦ ground (arith, stays)
        | inr (out, goes) ↦
            ground (arith, goes, moved_keeps u to v w.volumes out other (ground (arith, h)) goes)
      ];
  destroy_keeps =
      λ w id v named other h. ground (arith, contains-delete_key id v w.volumes, eqb_iff id v);
}

pub gc-IsAside : Collector.IsAside gc_view locks measurer
unfolding locks measurer
gc-IsAside = record {
  lock_view = λ w key. refl;
  unlock_view = λ w file. refl;
  usage_view = λ w. refl;
}

-- A stream is the text of a layer; unpacking a text that begins with '!' fails.
unfoldable pub unpack_text : UnpackSpec Str → M World UnpackOutput
unpack_text spec w = elim (has_prefix spec.stream (codes "!")) [
  | true ↦ (err (Error.new (codes "corrupt layer")), w)
  | false ↦ (ok (record { bytes_written = pos 10; opaque_whiteouts = [] }), w)
]

abbrev pub no_image : OciImage
no_image = record { volumes = []; env = [] }

unfoldable pub memory_os : Os World
memory_os = record {
  getuid = pos 0;
  getgid = pos 0;
  geteuid = pos 0;
  stat = λ path w. (err not_exist, w);
  lstat = λ path w. (err not_exist, w);
  mkdir = λ path mode w. (ok tt, w);
  mkdir_all = λ path mode w. (ok tt, w);
  chown = λ path u g w. (ok tt, w);
  chmod = λ path mode w. (ok tt, w);
  remove = λ path w. (ok tt, w);
  remove_all = λ path w. (ok tt, w);
  rename = λ from to w. (ok tt, w);
  read_dir = λ path w. (ok [], w);
  read_file = λ path w. (ok [], w);
  write_file = λ path text mode w. (ok tt, w);
  truncate = λ path n w. (ok tt, w);
  run = λ command arguments w. (([], ok tt), w);
}

-- The text of a layer is its media type.
unfoldable pub puller : BaseImagePuller World Str
unfolding driver locks unpack_text memory_os
puller = record {
  fetcher = record {
    base_image_info = λ url w. (ok (record { layer_infos = []; config = no_image }), w);
    stream_blob = λ url info w. (ok (info.media_type, pos 10), w);
  };
  unpack = unpack_text;
  volume_driver = driver;
  locksmith = locks;
  os = memory_os;
  close = λ stream w. (ok tt, w);
  unix_nano = λ w. (pos 1500, w);
  rand_int = λ w. (pos 42, w);
}

abbrev pub pull_view : World → Pull.View
pull_view w = record { has = contains w.volumes; held = w.held }

pub puller-IsDriver : Pull.IsDriver pull_view store puller
unfolding puller
puller-IsDriver = record {
  path_view = λ w v. ground arith;
  path_has = λ w v n. ground arith;
  create_path = λ w parent id path n e. ground arith;
  create_other =
      λ w parent id v n other. ground (arith, contains-insert_key id v w.volumes, eqb_iff id v);
  create_held = λ w parent id. ground arith;
  destroy_other =
      λ w id v n other. ground (arith, contains-delete_key id v w.volumes, eqb_iff id v);
  destroy_self = λ w id n h. ground (arith, contains-delete_key id id w.volumes);
  destroy_held = λ w id. refl;
  move_target = λ w from to n m. ground (
    arith,
    moved_names from to w.volumes,
    contains-insert_key to to (delete_key from w.volumes),
    eqb_self to,
  );
  move_other = λ w from to v n m ne1 ne2. ground (
    arith,
    moved_names from to w.volumes,
    contains-insert_key to v (delete_key from w.volumes),
    contains-delete_key from v w.volumes,
    eqb_iff from v,
    eqb_iff to v,
  );
  move_held = λ w from to. ground arith;
  meta_view = λ w id meta n. refl;
  whiteouts_view = λ w id. refl;
}

pub puller-IsAside : Pull.IsAside pull_view store puller
unfolding puller
puller-IsAside = record {
  stream_view = λ w url info. refl;
  unpack_other = λ w spec name v named located other. ground arith;
  unpack_held = λ w spec. ground arith;
  unpack_plain = λ w spec output e. ground arith;
  close_view = λ w stream. refl;
  nano_view = λ w. refl;
  rand_view = λ w. refl;
  chown_view = λ w path u g. refl;
  stat_view = λ w path. refl;
  mkdir_view = λ w path mode inside. refl;
}

pub puller-IsLocking : Pull.IsLocking pull_view store puller
unfolding puller
puller-IsLocking = record {
  lock_has = λ w key v. refl;
  lock_held = λ w key. refl;
  unlock_has = λ w file v. refl;
  unlock_held = λ w file. refl;
}
