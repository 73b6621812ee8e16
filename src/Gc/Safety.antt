-- ===== src/Gc/Safety.antt =====
-- What `MarkUnused`, `Collect` and `Clean` do to the volumes.
use groot_btrfs.Base.{
  ◌≡◌, refl, ◌∙◌, ap, Bool, true, false, ◌||◌, List, [], ◌∷◌, ◌++◌, arith, Bool-cases, inl, inr,
  All,
}
use groot_btrfs.Base.Int.{ℤ}
use groot_btrfs.Base.Str.{Str, eqb, eqb_iff, contains, has_prefix, replace_first}
use groot_btrfs.Base.Effect.{Result-cases}
use groot_btrfs.Groot.{StoreMeasurer, Locksmith}
use groot_btrfs.Groot as Interface
use groot_btrfs.Groot.Creator.{global_lock_key}
use groot_btrfs.Groot.Clean.{CleanerParts, mark_under_lock, clean_store, clean}
use groot_btrfs.Gc.{
  GarbageCollector, gc_prefix, mark_one, mark_each, mark_unused, destroy_each, collect,
  marked_volumes, unused_volumes,
}
use groot_btrfs.Base.FilePath.Laws.{IsName}
use groot_btrfs.Gc.Orphans.{contains-marked_volumes, eqb_self}
use groot_btrfs.Gc.View.{View, is_used, IsReader, IsWriter, IsAside}
use groot_btrfs.Gc.Unused.{contains-unused_volumes, view-unused_volumes}

-- The garbage collector as the cleaner sees it.
abbrev pub gc_interface : {W : Type 0} → GarbageCollector W → Interface.GarbageCollector W
gc_interface g = record {
  unused_volumes = unused_volumes g;
  mark_unused = mark_unused g;
  collect = collect g;
}

-- The cleaner over this collector.
abbrev pub parts :
    {W : Type 0} → GarbageCollector W → Locksmith W → StoreMeasurer W → CleanerParts W
parts g locks sm = record {
  store_measurer = sm;
  garbage_collector = gc_interface g;
  locksmith = locks;
}

-- A list whose members all have a property.
pub All-of_contains :
    (Q : Str → Type 0) (vs : List Str) → ((v : Str) → contains vs v ≡ true → Q v) → All Q vs
unfolding contains
All-of_contains Q [] h = tt
All-of_contains Q (v ∷ vs) h =
    (h v (ground (arith, eqb_self v)), All-of_contains Q vs (λ u m. h u (ground (arith, m))))

module _ {W : Type 0} (view : W → View) (root : Str) (g : GarbageCollector W)
    (L : IsWriter view root g) where
  mark_one_keeps :
      (u v : Str) (messages : List Str) (w : W)
      → IsName u
      → eqb u v ≡ false
      → (view w).has v ≡ true
      → (view (mark_one g u messages w).1).has v ≡ true
  unfolding mark_one
  mark_one_keeps u v messages w named other h =
      let w1 = (g.volume_driver.volume_path u w).1 in
      elim (Result-cases (g.volume_driver.volume_path u w).0) [
        | inr (x, failed) ↦ ground (arith, failed, L.path_view w u)
        | inl (path, found) ↦
            let to = replace_first path u (gc_prefix ++ u) in
            let moved : (view (g.volume_driver.move_volume path to w1).1).has v ≡ true =
              ap (λ p. (view (g.volume_driver.move_volume p to w1).1).has v)
                (L.path_eq w u path named found)
              ∙ L.move_keeps w1 u to v named (L.has_name w v h)
                  (λ same. cc (ap (eqb u) same, other, (eqb_iff u u).1 refl))
                  (ap (λ s. s.has v) (L.path_view w u) ∙ h) in
            ground (arith, found, moved)
      ]

  -- A volume that is not in the list survives the marking, whatever fails on the way.
  pub mark_each_keeps :
      (volumes : List Str) (v : Str) (messages : List Str) (w : W)
      → All IsName volumes
      → contains volumes v ≡ false
      → (view w).has v ≡ true
      → (view (mark_each g messages volumes w).1).has v ≡ true
  unfolding mark_each contains
  mark_each_keeps [] v messages w named out h = h
  mark_each_keeps (u ∷ volumes) v messages w named out h = ground (
    arith,
    mark_one_keeps u v messages w named.0,
    mark_each_keeps volumes v (mark_one g u messages w).0 (mark_one g u messages w).1 named.1,
  )

  pub mark_unused_keeps :
      (volumes : List Str) (v : Str) (w : W)
      → All IsName volumes
      → contains volumes v ≡ false
      → (view w).has v ≡ true
      → (view (mark_unused g volumes w).1).has v ≡ true
  unfolding mark_unused
  mark_unused_keeps volumes v w named out h =
      ground (arith, mark_each_keeps volumes v [] w named out h)

  destroy_each_keeps :
      (volumes : List Str) (v : Str) (failed : Bool) (w : W)
      → All IsName volumes
      → has_prefix v gc_prefix ≡ false
      → (view w).has v ≡ true
      → (view (destroy_each g failed volumes w).1).has v ≡ true
  unfolding destroy_each
  destroy_each_keeps [] v failed w named out h = h
  destroy_each_keeps (u ∷ volumes) v failed w named out h =
      elim (Bool-cases (has_prefix u gc_prefix)) [
        | inr unmarked ↦ rw unmarked (destroy_each_keeps volumes v failed w named.1 out h)
        | inl marked ↦ rw marked (
            destroy_each_keeps volumes v _ (g.volume_driver.destroy_volume u w).1 named.1 out (
              L.destroy_keeps w u v named.0 (λ same. cc (ap (λ t. has_prefix t gc_prefix) same)) h))
      ]

  pub collect_keeps :
      IsReader view g
      → (v : Str) (w : W) → has_prefix v gc_prefix ≡ false
      → (view w).has v ≡ true
      → (view (collect g w).1).has v ≡ true
  unfolding collect
  collect_keeps R v w out h =
      let w1 = (g.volume_driver.volumes w).1 in
      elim (Result-cases (g.volume_driver.volumes w).0) [
        | inr (x, failed) ↦ ground (arith, failed, R.volumes_view w)
        | inl (volumes, found) ↦ ground (
          arith,
          found,
          R.volumes_view w,
          destroy_each_keeps (marked_volumes volumes) v false w1
              (All-of_contains IsName (marked_volumes volumes) (λ u m. L.has_name w u (
                ground
                  (arith, m, contains-marked_volumes u volumes, R.volumes_has w volumes u found))))
              out,
        )
      ]

  module _ (locks : Locksmith W) (sm : StoreMeasurer W) (A : IsAside view locks sm)
      (R : IsReader view g) where
    mark_under_lock_keeps :
        (preserve : List Str) (v : Str) (w : W)
        → has_prefix v gc_prefix ≡ false
        → (is_used (view w) v || contains preserve v) ≡ true
        → (view w).has v ≡ true
        → (view (mark_under_lock (parts g locks sm) preserve w)).has v ≡ true
    unfolding mark_under_lock contains
    mark_under_lock_keeps preserve v w out needed h =
        let w1 = (unused_volumes g preserve w).1 in
        let h1 : (view w1).has v ≡ true =
          ap (λ s. s.has v) (view-unused_volumes view g R preserve w) ∙ h in
        elim (Result-cases (unused_volumes g preserve w).0) [
          | inr (x, failed) ↦ ground (arith, failed, mark_unused_keeps [] v w1 tt refl h1)
          | inl (unused, found) ↦ ground (
            arith,
            found,
            h1,
            contains-unused_volumes view g R preserve unused v w found,
            mark_unused_keeps unused v w1 (
                All-of_contains IsName unused (λ u m.
                  L.has_name w u (
                    ground
                      (arith, m, contains-unused_volumes view g R preserve unused u w found)))),
          )
        ]

    clean_store_keeps :
        (preserve : List Str) (v : Str) (w : W)
        → has_prefix v gc_prefix ≡ false
        → (is_used (view w) v || contains preserve v) ≡ true
        → (view w).has v ≡ true
        → (view (clean_store (parts g locks sm) preserve w).1).has v ≡ true
    unfolding clean_store
    clean_store_keeps preserve v w out needed h =
        let (locked, w1) = locks.lock global_lock_key w in
        let same : view w1 ≡ view w = A.lock_view w global_lock_key in
        let w2 = mark_under_lock (parts g locks sm) preserve w1 in
        elim (Result-cases locked) [
          | inr (x, failed) ↦ ground (arith, failed, same)
          | inl (file, held) ↦ ground (
            arith,
            held,
            same,
            mark_under_lock_keeps preserve v w1 out,
            A.unlock_view w2 file,
            collect_keeps R v (locks.unlock file w2).1 out,
          )
        ]

    -- Cleaning never takes away a volume that an image depends on or that is to be preserved,
    -- whatever fails on the way.
    pub clean_keeps :
        (threshold : ℤ) (preserve : List Str) (v : Str) (w : W)
        → has_prefix v gc_prefix ≡ false
        → (is_used (view w) v || contains preserve v) ≡ true
        → (view w).has v ≡ true
        → (view (clean (parts g locks sm) threshold preserve w).1).has v ≡ true
    unfolding clean
    clean_keeps threshold preserve v w out needed h = ground (
      arith,
      A.usage_view w,
      clean_store_keeps preserve v w out,
      clean_store_keeps preserve v (sm.usage w).1 out,
    )
