-- ===== src/Groot/Clean.antt =====
-- groot/cleaner.go: `cleaner.Clean`. The pair holds the Boolean, which says that nothing was cleaned,
-- beside the error.
pub mod Skip
use groot_btrfs.Base.{Bool, true, false, List, [], if◌then◌else◌}
use groot_btrfs.Base.Int.{ℤ, pos, ltb_ℤ}
use groot_btrfs.Base.Str.{Str, codes}
use groot_btrfs.Base.Effect.{⊤, Error, Result, ok, err, wrap}
use groot_btrfs.Groot.{GarbageCollector, StoreMeasurer, Locksmith}
use groot_btrfs.Groot.Creator.{global_lock_key}

pub record CleanerParts (W : Type 0) : Type 0 where
  pub store_measurer : StoreMeasurer W
  pub garbage_collector : GarbageCollector W
  pub locksmith : Locksmith W

module _ {W : Type 0} (c : CleanerParts W) where
  -- Between the lock and its release. The errors here are only logged; where the volumes cannot be
  -- found, none are marked.
  unfoldable pub mark_under_lock : List Str → W → W
  mark_under_lock chain_ids_to_preserve w =
      let (found, w1) = c.garbage_collector.unused_volumes chain_ids_to_preserve w in
      let (_, w2) =
        c.garbage_collector.mark_unused (elim found [ ok volumes ↦ volumes | err _ ↦ [] ]) w1 in
      w2

  unfoldable pub clean_store : List Str → W → (Bool × Result ⊤) × W
  unfolding mark_under_lock
  clean_store chain_ids_to_preserve w =
      let (locked, w1) = c.locksmith.lock global_lock_key w in
      elim locked [
        | err e ↦ ((false, err (wrap e (codes "garbage collector acquiring lock"))), w1)
        | ok lock_file ↦
            let (_, w2) = c.locksmith.unlock lock_file (mark_under_lock chain_ids_to_preserve w1) in
            let (r, w3) = c.garbage_collector.collect w2 in ((false, r), w3)
      ]

  unfoldable pub clean : ℤ → List Str → W → (Bool × Result ⊤) × W
  unfolding clean_store
  clean threshold chain_ids_to_preserve w =
      if ltb_ℤ (pos 0) threshold
      then (let (r, w1) = c.store_measurer.usage w in
          elim r [
            | err e ↦ ((true, err (wrap e (codes "measuring store usage"))), w1)
            | ok used ↦
                if ltb_ℤ used threshold
                then ((true, ok tt), w1)
                else clean_store chain_ids_to_preserve w1
          ])
      else if ltb_ℤ threshold (pos 0)
      then ((true, err (Error.new (codes "Threshold must be greater than 0"))), w)
      else clean_store chain_ids_to_preserve w
