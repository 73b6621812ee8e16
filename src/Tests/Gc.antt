-- ===== src/Tests/Gc.antt =====
-- The garbage collector and the cleaner on the store in memory.
use groot_btrfs.Base.{◌≡◌, refl, true, false, not, ◌&&◌, ◌||◌, List, [], ◌∷◌}
use groot_btrfs.Base.Int.{pos}
use groot_btrfs.Base.Str.{replace_first, Str, codes, contains, has_prefix}
use groot_btrfs.Base.Effect.{ok}
use groot_btrfs.Groot.Creator.{image_reference}
use groot_btrfs.Groot.Clean.{clean}
use groot_btrfs.Gc.{insert_key, delete_key, unused_volumes, mark_unused, collect, gc_prefix}
use groot_btrfs.Gc.View.{is_used}
use groot_btrfs.Gc.Unused.{contains-unused_volumes}
use groot_btrfs.Gc.Safety.{parts, clean_keeps}
use groot_btrfs.Tests.Memory.{
  World, moved, root, collector, measurer, locks, gc_view, collector-IsReader, collector-IsWriter,
  gc-IsAside,
}

abbrev pub world : World
world = record {
  volumes = codes "base" ∷ codes "top" ∷ codes "old" ∷ codes "gc.x" ∷ codes "next" ∷ [];
  images = codes "img" ∷ [];
  registry = (codes "image:img", codes "base" ∷ codes "top" ∷ []) ∷ [];
  held = 0;
}

abbrev pub preserve : List Str
preserve = codes "next" ∷ []

pub unused_run : (unused_volumes collector preserve world).0 ≡ ok (codes "old" ∷ [])
unfolding unused_volumes collector
unused_run = refl

-- After a clean only the used and the preserved volumes are left.
clean_run :
    let t = (clean (parts collector locks measurer) (pos 100) preserve world).1 in
    t.volumes ≡ codes "base" ∷ codes "top" ∷ codes "next" ∷ []
unfolding clean unused_volumes mark_unused collect collector locks measurer contains has_prefix
    moved replace_first insert_key delete_key
clean_run = refl

contains-unused_volumes_example : contains (codes "old" ∷ []) (codes "top") ≡ (
    (gc_view world).has (codes "top")
    && (not (has_prefix (codes "top") gc_prefix)
        && (not (is_used (gc_view world) (codes "top")) && not (contains preserve (codes "top")))))
contains-unused_volumes_example =
    contains-unused_volumes gc_view collector collector-IsReader preserve (codes "old" ∷ [])
      (codes "top") world unused_run

top_unmarked : has_prefix (codes "top") gc_prefix ≡ false
unfolding has_prefix
top_unmarked = refl

top_needed : (is_used (gc_view world) (codes "top") || contains preserve (codes "top")) ≡ true
unfolding contains image_reference
top_needed = refl

top_there : (gc_view world).has (codes "top") ≡ true
unfolding contains
top_there = refl

clean_keeps_example :
    (gc_view (clean (parts collector locks measurer) (pos 100) preserve world).1).has (codes "top")
    ≡ true
clean_keeps_example =
    clean_keeps gc_view root collector collector-IsWriter locks measurer gc-IsAside
      collector-IsReader (pos 100) preserve (codes "top") world top_unmarked top_needed top_there
