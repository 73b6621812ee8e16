-- ===== src/Gc/Orphans.antt =====
-- The keys of the map of orphaned volumes: what each operation on the map does to a membership test.
use groot_btrfs.Base.{◌≡◌, refl, true, not, ◌&&◌, ◌||◌, List, [], ◌∷◌, arith}
use groot_btrfs.Base.{Bool-cases, inl, inr}
use groot_btrfs.Base.Str.{Str, eqb, eqb_iff, contains, has_prefix}
use groot_btrfs.Gc.{
  gc_prefix, insert_key, delete_key, remove_dependency_from_orphan_list, unmarked_keys,
  marked_volumes,
}

pub eqb_self : (v : Str) → eqb v v ≡ true
eqb_self v = (eqb_iff v v).1 refl

pub contains-insert_key :
    (u v : Str) (keys : List Str) → contains (insert_key u keys) v ≡ (eqb u v || contains keys v)
unfolding insert_key contains
contains-insert_key u v keys = elim (Bool-cases (contains keys u)) [
  | inl old ↦ ground (arith, eqb_iff u v, old)
  | inr fresh ↦ ground (arith, fresh)
]

pub contains-delete_key :
    (u v : Str) (keys : List Str)
    → contains (delete_key u keys) v ≡ (not (eqb u v) && contains keys v)
unfolding delete_key contains
contains-delete_key u v [] = ground arith
contains-delete_key u v (k ∷ keys) =
    ground (arith, contains-delete_key u v keys, eqb_iff k u, eqb_iff k v, eqb_iff u v)

pub contains-remove :
    (v : Str) (keys used : List Str)
    → contains (remove_dependency_from_orphan_list keys used) v
      ≡ (not (contains used v) && contains keys v)
unfolding remove_dependency_from_orphan_list contains
contains-remove v keys [] = refl
contains-remove v keys (u ∷ used) =
    ground (arith, contains-remove v (delete_key u keys) used, contains-delete_key u v keys)

pub contains-unmarked_keys :
    (v : Str) (keys volumes : List Str)
    → contains (unmarked_keys keys volumes) v
      ≡ (contains keys v || (contains volumes v && not (has_prefix v gc_prefix)))
unfolding unmarked_keys contains
contains-unmarked_keys v keys [] = ground arith
contains-unmarked_keys v keys (u ∷ volumes) = ground (
  arith,
  contains-unmarked_keys v keys volumes,
  contains-unmarked_keys v (insert_key u keys) volumes,
  contains-insert_key u v keys,
  eqb_iff u v,
)

pub contains-marked_volumes :
    (v : Str) (volumes : List Str)
    → contains (marked_volumes volumes) v ≡ (contains volumes v && has_prefix v gc_prefix)
unfolding marked_volumes contains
contains-marked_volumes v [] = refl
contains-marked_volumes v (u ∷ volumes) =
    ground (arith, contains-marked_volumes v volumes, eqb_iff u v)
