-- ===== src/Tests/Creator.antt =====
-- The creator on the store in memory.
use groot_btrfs.Base.{◌≡◌, refl, ap, true, false, ◌&&◌, ◌||◌, List, [], ◌∷◌, arith, some, none}
use groot_btrfs.Base.Int.{pos}
use groot_btrfs.Base.Str.{Str, codes, eqb, contains, contains_str}
use groot_btrfs.Base.FilePath.Laws.{IsName, is_name, is_name-IsName, IsName-is_name}
use groot_btrfs.Base.Effect.{ok, err, succeeded, Error}
use groot_btrfs.Groot.{BaseImageInfo, CreateSpec, ImageInfo}
use groot_btrfs.Groot.Creator.{
  Creator, create, register_image, base_image_spec, parse_owner, image_reference, chain_ids,
}
use groot_btrfs.Groot.Creator.View as View
use groot_btrfs.Groot.Creator.View.{IsLawful}
use groot_btrfs.Groot.Creator.Laws.{IsCreated, create_held, create-IsCreated, create_refused}
use groot_btrfs.Gc.{insert_key, delete_key}
use groot_btrfs.Gc.Orphans.{contains-insert_key, contains-delete_key, eqb_self}
use groot_btrfs.Tests.Memory.{World, lookup, locks, no_image}

abbrev base_info : BaseImageInfo
base_info = record {
  layer_infos =
      record {
        blob_id = codes "blob";
        chain_id = codes "base";
        diff_id = codes "diff";
        parent_chain_id = [];
        size = pos 1000;
        base_directory = [];
        urls = [];
        media_type = [];
      }
      ∷ [];
  config = no_image;
}

abbrev rootfs_of : Str → ImageInfo
rootfs_of id = record { rootfs = id; image = no_image; mounts = []; path = id }

-- A dependency is not registered for an id that has one already.
unfoldable creator : Creator World
unfolding locks
creator = record {
  cleaner = record { clean = λ threshold ids w. ((false, ok tt), w) };
  image_cloner = record {
    exists = λ id w. (ok (contains w.images id), w);
    create = λ spec w. (ok (rootfs_of spec.id), record w { images = insert_key spec.id w.images });
    destroy = λ id w. (ok tt, record w { images = delete_key id w.images });
    stats = λ id w. (err (Error.new []), w);
  };
  base_image_puller = record {
    fetch_base_image_info = λ spec w. (ok base_info, w);
    pull = λ info spec w. (ok tt, record w { volumes = insert_key (codes "base") w.volumes });
  };
  locksmith = locks;
  dependency_manager = record {
    register = λ id ids w. elim (lookup w.registry id) [
      | none ↦ (ok tt, record w { registry = (id, ids) ∷ w.registry })
      | some _ ↦ (err (Error.new (codes "registered")), w)
    ];
    deregister = λ id w. (ok tt, w);
  };
}

abbrev view : World → View.View
view w = record {
  image = λ v. is_name v && contains w.images v;
  deps = lookup w.registry;
  held = w.held;
}

images_same :
    (w : World) (id : Str) (ids : List Str)
    → (creator.dependency_manager.register id ids w).1.images ≡ w.images
unfolding creator
images_same w id ids = ground arith

img-IsName : IsName (codes "img")
unfolding eqb
img-IsName = record { no_slash = refl; full = refl; no_dot = refl; no_dots = refl }

creator-IsLawful : IsLawful view creator
unfolding creator
creator-IsLawful = record {
  exists_view = λ w id. refl;
  image_name = λ w id h. is_name-IsName id (ground (arith, h));
  exists_image = λ w id found n e. ground (arith, IsName-is_name id n);
  fetch_held = λ w spec. refl;
  clean_held = λ w threshold ids. refl;
  pull_held = λ w info spec. refl;
  create_image = λ w spec n e. ground (
    arith,
    contains-insert_key spec.id spec.id w.images,
    eqb_self spec.id,
    IsName-is_name spec.id n,
  );
  create_held = λ w spec. refl;
  destroy_image = λ w id n e. ground (arith, contains-delete_key id id w.images, eqb_self id);
  destroy_held = λ w id. refl;
  register_deps = λ w id ids e. ground (arith, eqb_self id);
  register_image = λ w id ids. ap (λ l. (λ v. is_name v && contains l v)) (images_same w id ids);
  register_held = λ w id ids. ground arith;
  lock_held = λ w key. refl;
  unlock_image = λ w file. refl;
  unlock_deps = λ w file. refl;
  unlock_held = λ w file. refl;
}

abbrev spec : Str → CreateSpec
spec id = record {
  id = id;
  base_image_url = record { scheme = []; host = []; path = codes "/base.tar"; text = [] };
  disk_limit = pos 0;
  mount = true;
  exclude_base_image_from_quota = false;
  clean_on_create = true;
  clean_on_create_threshold_bytes = pos 10;
  uid_mappings = record { host_id = pos 1000; namespace_id = pos 0; size = pos 1 } ∷ [];
  gid_mappings = [];
}

abbrev empty : World
empty = record { volumes = []; images = []; registry = []; held = 0 }

-- A reference of an image that is gone is still there.
abbrev stale : World
stale = record { volumes = []; images = []; registry = (codes "image:img", []) ∷ []; held = 0 }

create_run :
    (create creator (pos 0) (pos 0) (spec (codes "img")) empty).0 ≡ ok (rootfs_of (codes "img"))
unfolding create creator contains contains_str image_reference
create_run = refl

create-IsCreated_example :
    (info : BaseImageInfo) × ((creator.base_image_puller.fetch_base_image_info
        (base_image_spec
          (spec (codes "img"))
          (parse_owner (pos 0) (pos 0) (spec (codes "img")).uid_mappings []))
        (creator.image_cloner.exists (codes "img") empty).1).0
      ≡ ok info)
    × IsCreated
        (codes "img")
        (chain_ids info.layer_infos)
        (view (create creator (pos 0) (pos 0) (spec (codes "img")) empty).1)
    × ((view empty).image (codes "img") ≡ false)
    × (contains_str (codes "img") (codes "/") ≡ false)
create-IsCreated_example =
    create-IsCreated view creator creator-IsLawful (pos 0) (pos 0) (spec (codes "img")) empty
      (rootfs_of (codes "img")) img-IsName create_run

create_held_example : (view (create creator (pos 0) (pos 0) (spec (codes "img")) stale).1).held ≡ 0
create_held_example =
    create_held view creator creator-IsLawful (pos 0) (pos 0) (spec (codes "img")) stale

slash_found : (contains_str (codes "a/b") (codes "/") || (view empty).image (codes "a/b")) ≡ true
unfolding contains_str
slash_found = refl

create_refused_example :
    (succeeded (create creator (pos 0) (pos 0) (spec (codes "a/b")) empty).0 ≡ false)
    × (view (create creator (pos 0) (pos 0) (spec (codes "a/b")) empty).1 ≡ view empty)
create_refused_example =
    create_refused view creator creator-IsLawful (pos 0) (pos 0) (spec (codes "a/b")) empty
      slash_found

abbrev cloned : World
cloned = record {
  volumes = [];
  images = codes "img" ∷ [];
  registry = (codes "image:img", []) ∷ [];
  held = 0;
}
