-- ===== src/Tests/Delete.antt =====
-- A deletion, and a clean that is skipped, on the store in memory.
use groot_btrfs.Base.{◌≡◌, refl, Bool, true, false, List, [], ◌∷◌, arith, none, some, if◌then◌else◌}
use groot_btrfs.Base.Int.{pos}
use groot_btrfs.Base.Str.{Str, codes, eqb, contains}
use groot_btrfs.Base.Effect.{Error, ok, err, not_exist, succeeded, is_not_exist, cause}
use groot_btrfs.Groot.Creator.{image_reference}
use groot_btrfs.Groot.Clean.{clean}
use groot_btrfs.Groot.Clean.Skip.{is_below, clean_skipped}
use groot_btrfs.Groot.Delete.{Deleter, delete, deregister_image}
use groot_btrfs.Groot.Delete.Laws.{View, IsLawful, delete_gone}
use groot_btrfs.Gc.{delete_key}
use groot_btrfs.Gc.Safety.{parts}
use groot_btrfs.Gc.Orphans.{contains-delete_key, eqb_self}
use groot_btrfs.Tests.Memory.{World, lookup, collector, locks, measurer}

abbrev without : Str → List (Str × List Str) → List (Str × List Str)
without id [] = []
without id ((j, ids) ∷ r) = if eqb j id then without id r else (j, ids) ∷ without id r

abbrev is_registered : List (Str × List Str) → Str → Bool
is_registered r id = elim (lookup r id) [ none ↦ false | some ids ↦ true ]

is_registered-without :
    (id : Str) (r : List (Str × List Str)) → is_registered (without id r) id ≡ false
is_registered-without id [] = refl
is_registered-without id ((j, ids) ∷ r) = ground (arith, is_registered-without id r)

unfoldable deleter : Deleter World
deleter = record {
  image_cloner = record {
    exists = λ id w. (ok (contains w.images id), w);
    create = λ spec w. (err not_exist, w);
    destroy = λ id w.
        if contains w.images id
        then (ok tt, record w { images = delete_key id w.images })
        else (err (Error.new (codes "image not found")), w);
    stats = λ id w. (err not_exist, w);
  };
  dependency_manager = record {
    register = λ id ids w. (ok tt, w);
    deregister = λ id w.
        if is_registered w.registry id
        then (ok tt, record w { registry = without id w.registry })
        else (err not_exist, w);
  };
}

abbrev view : World → View
view w = record { image = contains w.images; registered = is_registered w.registry }

deleter-IsLawful : IsLawful view deleter
unfolding deleter
deleter-IsLawful = record {
  destroy_image = λ w id e. ground (arith, contains-delete_key id id w.images, eqb_self id);
  deregister_image = λ w id. ground arith;
  deregister_done = λ w id e. ground (arith, is_registered-without id w.registry);
  deregister_missing = λ w id x e missing. ground arith;
}

-- An image whose dependencies are not registered.
abbrev unregistered : World
unregistered = record { volumes = []; images = codes "img" ∷ []; registry = []; held = 0 }

delete_run : succeeded (delete deleter (codes "img") unregistered).0 ≡ true
unfolding delete deregister_image deleter contains is_not_exist cause eqb
delete_run = refl

delete_gone_example :
    ((view (delete deleter (codes "img") unregistered).1).image (codes "img") ≡ false)
    × ((view (delete deleter (codes "img") unregistered).1).registered
          (image_reference (codes "img"))
        ≡ false)
delete_gone_example =
    delete_gone view deleter deleter-IsLawful (codes "img") unregistered delete_run

-- 500 bytes are used.
clean_skipped_example :
    ((clean (parts collector locks measurer) (pos 501) [] unregistered).0.0
      ≡ is_below (measurer.usage unregistered).0 (pos 501))
    × ((clean (parts collector locks measurer) (pos 501) [] unregistered).0.0 ≡ true
        → (clean (parts collector locks measurer) (pos 501) [] unregistered).1
          ≡ (measurer.usage unregistered).1)
clean_skipped_example = clean_skipped (parts collector locks measurer) (pos 501) [] unregistered
