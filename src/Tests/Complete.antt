-- ===== src/Tests/Complete.antt =====
-- A clean of the store in memory in which nothing fails.
use groot_btrfs.Base.{
  ◌≡◌, ◌≢◌, refl, sym, subst, Bool, true, false, not, ◌&&◌, ◌||◌, List, [], ◌∷◌, ◌++◌, arith,
  Bool-cases, inl, inr, All, some, Option-cases,
}
use groot_btrfs.Base.Str.{
  Str, codes, eqb, eqb_iff, contains, contains_str, has_prefix, drop, replace_first,
}
use groot_btrfs.Base.Str.Laws.{has_prefix-nil}
use groot_btrfs.Base.FilePath.Laws.{is_name}
use groot_btrfs.Base.Effect.{⊤, Result}
use groot_btrfs.Groot.Clean.{clean_store}
use groot_btrfs.Gc.{insert_key, delete_key, unused_volumes, mark_unused, collect, gc_prefix}
use groot_btrfs.Gc.Orphans.{contains-insert_key, contains-delete_key, eqb_self}
use groot_btrfs.Gc.View.{is_used}
use groot_btrfs.Gc.Safety.{parts}
use groot_btrfs.Gc.Progress.{IsPlain, IsProgress}
use groot_btrfs.Gc.Complete.{clean_store_complete}
use groot_btrfs.Tests.Memory.{
  World, moved, root, store, collector, measurer, locks, gc_view, collector-IsReader,
  collector-IsWriter, gc-IsAside,
}
use groot_btrfs.Tests.Gc.{world, preserve, unused_run}

moved_gone :
    (u to : Str) (vs out : List Str)
    → u ≢ to
    → moved (root ++ u) (root ++ to) vs ≡ some out
    → contains out u ≡ false
unfolding moved has_prefix drop
moved_gone u to vs out other e = ground (
  arith,
  has_prefix-nil u,
  has_prefix-nil to,
  contains-insert_key to u (delete_key u vs),
  contains-delete_key u u vs,
  eqb_self u,
  eqb_iff to u,
)

moved_fresh :
    (u to v : Str) (vs out : List Str)
    → v ≢ to
    → contains vs v ≡ false
    → moved (root ++ u) (root ++ to) vs ≡ some out
    → contains out v ≡ false
unfolding moved has_prefix drop
moved_fresh u to v vs out other absent e = ground (
  arith,
  has_prefix-nil u,
  has_prefix-nil to,
  contains-insert_key to v (delete_key u vs),
  contains-delete_key u v vs,
  eqb_iff to v,
)

-- A name that no volume has.
unfree :
    (v : Str) (vs out : List Str)
    → (contains vs v ≡ false → contains out v ≡ false)
    → (is_name v && contains vs v) ≡ false
    → (is_name v && contains out v) ≡ false
unfree v vs out keep h = elim (Bool-cases (is_name v)) [
  | inl named ↦ ground (arith, named, h, keep)
  | inr odd ↦ rw odd refl
]

collector-IsProgress : IsProgress gc_view store collector
unfolding collector
collector-IsProgress = record {
  move_gone = λ w u to named plain other free h.
      elim (Option-cases (moved (root ++ u) (root ++ to) w.volumes)) [
        | inl stays ↦ absurd (ground (arith, stays, h))
        | inr (out, goes) ↦ ground (arith, goes, moved_gone u to w.volumes out other goes)
      ];
  move_fresh = λ w u to v named plain other absent.
      elim (Option-cases (moved (root ++ u) (root ++ to) w.volumes)) [
        | inl stays ↦ ground (arith, stays)
        | inr (out, goes) ↦ ground (
          arith,
          goes,
          unfree v w.volumes out (λ h. moved_fresh u to v w.volumes out other h goes) absent,
        )
      ];
  destroy_gone = λ w id named h. ground (arith, contains-delete_key id id w.volumes, eqb_self id);
  destroy_fresh = λ w id v named absent.
      unfree v w.volumes (delete_key id w.volumes)
        (λ h. ground (arith, contains-delete_key id v w.volumes)) absent;
}

of_contains : (Q : Str → Type 0) (vs : List Str) (v : Str) → All Q vs → contains vs v ≡ true → Q v
unfolding contains
of_contains Q [] v all m = cc
of_contains Q (u ∷ vs) v all m = elim (Bool-cases (eqb u v)) [
  | inl same ↦ subst Q ((eqb_iff u v).0 same) all.0
  | inr other ↦ of_contains Q vs v all.1 (ground (arith, other, m))
]

abbrev cleaned : (Bool × Result ⊤) × World
cleaned = clean_store (parts collector locks measurer) preserve world

world-IsPlain : (u : Str) → (gc_view world).has u ≡ true → IsPlain store u
unfolding contains_str has_prefix
world-IsPlain u h =
    of_contains (IsPlain store) world.volumes u
      (
        record { no_slash = refl; outside = refl },
        (
          record { no_slash = refl; outside = refl },
          (
            record { no_slash = refl; outside = refl },
            (
              record { no_slash = refl; outside = refl },
              (record { no_slash = refl; outside = refl }, tt),
            ),
          ),
        ),
      )
      (ground (arith, h))

-- No volume is called "gc.old".
marks_free :
    (u : Str) → contains (codes "old" ∷ []) u ≡ true → (gc_view world).has (gc_prefix ++ u) ≡ false
unfolding contains
marks_free u h = rw (sym ((eqb_iff (codes "old") u).0 (ground (arith, h)))) refl

clean_store_complete_example :
    (not (has_prefix (codes "top") gc_prefix)
      && (is_used (gc_view world) (codes "top") || contains preserve (codes "top")))
    ≡ true
unfolding clean_store unused_volumes mark_unused collect collector locks measurer contains
    has_prefix moved replace_first insert_key delete_key
clean_store_complete_example =
    clean_store_complete gc_view store collector collector-IsWriter collector-IsProgress locks
      measurer gc-IsAside collector-IsReader preserve (codes "old" ∷ []) (codes "top") world
      world-IsPlain marks_free refl unused_run refl refl refl
