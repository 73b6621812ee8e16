-- ===== src/Gc/Complete.antt =====
-- A clean in which nothing fails leaves only what is needed.
use groot_btrfs.Base.{
  ◌≡◌, refl, ◌∙◌, sym, ap, subst, Bool, true, false, not, ◌&&◌, ◌||◌, List, [], ◌∷◌, arith,
  Bool-cases, inl, inr, All, length, ◌++◌, ltb,
}
use groot_btrfs.Base.Str.{Str, eqb, eqb_iff, contains, has_prefix}
use groot_btrfs.Base.Effect.{ok, Result-cases, succeeded}
use groot_btrfs.Groot.{StoreMeasurer, Locksmith}
use groot_btrfs.Groot.Creator.{global_lock_key}
use groot_btrfs.Groot.Clean.{mark_under_lock, clean_store}
use groot_btrfs.Gc.{
  GarbageCollector, gc_prefix, mark_each, mark_unused, destroy_each, collect, marked_volumes,
  unused_volumes,
}
use groot_btrfs.Gc.Orphans.{contains-marked_volumes}
use groot_btrfs.Gc.View.{View, is_used, IsReader, IsWriter, IsAside}
use groot_btrfs.Gc.Unused.{contains-unused_volumes, view-unused_volumes}
use groot_btrfs.Gc.Safety.{parts, All-of_contains}
use groot_btrfs.Base.FilePath.Laws.{IsName}
use groot_btrfs.Gc.Progress.{
  IsPlain, root_of, IsProgress, Markable, mark_each_fresh, mark_each_gone,
}

module _ {W : Type 0} (view : W → View) (store : Str) (g : GarbageCollector W)
    (P : IsProgress view store g) where
  destroy_each_fresh :
      (volumes : List Str) (v : Str) (failed : Bool) (w : W)
      → All IsName volumes
      → (view w).has v ≡ false
      → (view (destroy_each g failed volumes w).1).has v ≡ false
  unfolding destroy_each
  destroy_each_fresh [] v failed w named absent = absent
  destroy_each_fresh (u ∷ volumes) v failed w named absent =
      elim (Bool-cases (has_prefix u gc_prefix)) [
        | inr plain ↦ rw plain (destroy_each_fresh volumes v failed w named.1 absent)
        | inl marked ↦ rw marked (
            destroy_each_fresh volumes v _ (g.volume_driver.destroy_volume u w).1 named.1
              (P.destroy_fresh w u v named.0 absent))
      ]

  destroyed :
      (u : Str) (w : W)
      → IsName u
      → (g.volume_driver.destroy_volume u w).0 ≡ ok tt
      → (view (g.volume_driver.destroy_volume u w).1).has u ≡ false
  destroyed u w named gone = P.destroy_gone w u named (ap succeeded gone)

  -- A failure is not forgotten.
  destroy_each_failed : (volumes : List Str) (w : W) → (destroy_each g true volumes w).0 ≡ true
  unfolding destroy_each
  destroy_each_failed [] w = refl
  destroy_each_failed (u ∷ volumes) w = elim (Bool-cases (has_prefix u gc_prefix)) [
    | inr plain ↦ rw plain (destroy_each_failed volumes w)
    | inl marked ↦
        let (r, w1) = g.volume_driver.destroy_volume u w in
        elim (Result-cases r) [
          | inl (_, fine) ↦ rw (marked, fine) (destroy_each_failed volumes w1)
          | inr (x, failed) ↦ rw (marked, failed) (destroy_each_failed volumes w1)
        ]
  ]

  destroy_each_gone :
      (volumes : List Str) (v : Str) (w : W)
      → All IsName volumes
      → (destroy_each g false volumes w).0 ≡ false
      → contains volumes v ≡ true
      → has_prefix v gc_prefix ≡ true
      → (view (destroy_each g false volumes w).1).has v ≡ false
  unfolding destroy_each contains
  destroy_each_gone [] v w named fine listed marked = cc
  destroy_each_gone (u ∷ volumes) v w named fine listed marked =
      elim (Bool-cases (has_prefix u gc_prefix)) [
        | inr plain ↦
            let other : eqb u v ≡ false =
              ground (arith, eqb_iff u v, plain, marked, ap (λ t. has_prefix t gc_prefix)) in
            ground (arith, plain, destroy_each_gone volumes v w named.1, fine, listed, other)
        | inl found ↦
            let (r, w1) = g.volume_driver.destroy_volume u w in
            let P = λ (o : Bool × W). o.0 ≡ false → (view o.1).has v ≡ false in
            elim (Result-cases r) [
              | inr (x, failed) ↦
                  let e : destroy_each g false (u ∷ volumes) w ≡ destroy_each g true volumes w1 =
                    ground (arith, found, failed) in
                  absurd (cc (ap (λ o. o.0) e, destroy_each_failed volumes w1, fine))
              | inl (_, gone) ↦
                  let e : destroy_each g false (u ∷ volumes) w ≡ destroy_each g false volumes w1 =
                    ground (arith, found, gone) in
                  subst P (sym e)
                    (λ rest. elim (Bool-cases (eqb u v)) [
                      | inl same ↦ destroy_each_fresh volumes v false w1 named.1 (
                          ap (λ t. (view w1).has t) (sym ((eqb_iff u v).0 same))
                          ∙ destroyed u w named.0 gone)
                      | inr other ↦
                          destroy_each_gone volumes v w1 named.1 rest
                            (ground (arith, other, listed)) marked
                    ])
                    fine
            ]
      ]

  -- A collection that succeeds leaves no marked volume, and makes none.
  collect_gone :
      IsReader view g
      → ((w : W) (u : Str) → (view w).has u ≡ true → IsName u)
      → (v : Str) (w : W) → (collect g w).0 ≡ ok tt
      → (has_prefix v gc_prefix || not ((view w).has v)) ≡ true
      → (view (collect g w).1).has v ≡ false
  unfolding collect
  collect_gone R N v w fine either =
      let (listed, w1) = g.volume_driver.volumes w in
      elim (Result-cases listed) [
        | inr (x, failed) ↦ absurd (ground (arith, failed, fine))
        | inl (volumes, found) ↦
            let (failed, w2) = destroy_each g false (marked_volumes volumes) w1 in
            let same : (view w1).has v ≡ (view w).has v = ap (λ s. s.has v) (R.volumes_view w) in
            let none_failed : failed ≡ false = ground (arith, found, fine) in
            let e : (collect g w).1 ≡ w2 = ground (arith, found, none_failed) in
            let named : All IsName (marked_volumes volumes) =
              All-of_contains IsName (marked_volumes volumes) (λ u m. N w u (
                ground (
                  arith,
                  m,
                  contains-marked_volumes u volumes,
                  R.volumes_has w volumes u found,
                ))) in
            ap (λ t. (view t).has v) e ∙ elim (Bool-cases ((view w).has v)) [
              | inr absent ↦
                  destroy_each_fresh (marked_volumes volumes) v false w1 named (same ∙ absent)
              | inl there ↦
                  let marked : has_prefix v gc_prefix ≡ true = ground (arith, there, either) in
                  destroy_each_gone (marked_volumes volumes) v w1 named none_failed
                    (contains-marked_volumes v volumes
                      ∙ ground (arith, R.volumes_has w volumes v found, there, marked))
                    marked
            ]
      ]

no_messages : (ms : List Str) → ltb 0 (length ms) ≡ false → ms ≡ []
no_messages [] h = refl
no_messages (m ∷ ms) h = absurd (ground arith)

module _ {W : Type 0} (view : W → View) (store : Str) (g : GarbageCollector W)
    (L : IsWriter view (root_of store) g) (P : IsProgress view store g) where
  -- A marking that succeeds leaves no volume of the list under its name, and makes none that is not
  -- marked.
  mark_unused_gone :
      (volumes : List Str) (v : Str) (w : W)
      → Markable view store g L P volumes
      → (mark_unused g volumes w).0 ≡ ok tt
      → has_prefix v gc_prefix ≡ false
      → (contains volumes v ≡ true → (view w).has (gc_prefix ++ v) ≡ false)
      → (contains volumes v || not ((view w).has v)) ≡ true
      → (view (mark_unused g volumes w).1).has v ≡ false
  unfolding mark_unused
  mark_unused_gone volumes v w h fine out free either =
      let (messages, w1) = mark_each g [] volumes w in
      let few : ltb 0 (length messages) ≡ false = ground (arith, fine) in
      let e : (mark_unused g volumes w).1 ≡ w1 = ground (arith, few) in
      ap (λ t. (view t).has v) e ∙ elim (Bool-cases ((view w).has v)) [
        | inr absent ↦ mark_each_fresh view store g L P volumes v [] w h out absent
        | inl there ↦
            let listed : contains volumes v ≡ true = ground (arith, there, either) in
            mark_each_gone view store g L P volumes v [] w h (no_messages messages few) listed out
              (free listed)
      ]

  module _ (locks : Locksmith W) (sm : StoreMeasurer W) (A : IsAside view locks sm)
      (R : IsReader view g) where
    -- Where the lock is got, and the unused volumes are found, marked and collected without an error,
    -- each volume that is left is not marked, and an image depends on it or it is to be preserved.
    -- The names of the volumes are no part of the path of the volumes, and no volume has the name that
    -- an unused one is to get.
    pub clean_store_complete :
        (preserve unused : List Str) (v : Str) (w : W)
        → ((u : Str) → (view w).has u ≡ true → IsPlain store u)
        → ((u : Str) → contains unused u ≡ true → (view w).has (gc_prefix ++ u) ≡ false)
        → succeeded (locks.lock global_lock_key w).0 ≡ true
        → (unused_volumes g preserve (locks.lock global_lock_key w).1).0 ≡ ok unused
        → (mark_unused g unused (unused_volumes g preserve (locks.lock global_lock_key w).1).1).0
          ≡ ok tt
        → (clean_store (parts g locks sm) preserve w).0 ≡ (false, ok tt)
        → (view (clean_store (parts g locks sm) preserve w).1).has v ≡ true
        → (not (has_prefix v gc_prefix) && (is_used (view w) v || contains preserve v)) ≡ true
    unfolding clean_store mark_under_lock
    clean_store_complete preserve unused v w plain free locked found marked done there =
        let (lock, w1) = locks.lock global_lock_key w in
        let same1 : view w1 ≡ view w = A.lock_view w global_lock_key in
        let w2 = (unused_volumes g preserve w1).1 in
        let same2 : view w2 ≡ view w = view-unused_volumes view g R preserve w1 ∙ same1 in
        let members = λ (u : Str).
          contains-unused_volumes view g R preserve unused u w1 found
          ∙ ap
              (λ s.
                s.has u
                && (not (has_prefix u gc_prefix)
                    && (not (is_used s u) && not (contains preserve u))))
              same1 in
        let markable : Markable view store g L P unused =
          All-of_contains (λ u. IsPlain store u × IsName u) unused
            (λ u m. (
              plain u (ground (arith, members u, m)),
              L.has_name w u (ground (arith, members u, m)),
            )) in
        let w3 = (mark_unused g unused w2).1 in
        elim (Result-cases lock) [
          | inr (x, failed) ↦ absurd (cc (ap succeeded failed, locked))
          | inl (file, got) ↦
              let w4 = (locks.unlock file w3).1 in
              let kept : (view w4).has v ≡ (view w3).has v =
                ap (λ s. s.has v) (A.unlock_view w3 file) in
              let e : clean_store (parts g locks sm) preserve w
                  ≡ ((false, (collect g w4).0), (collect g w4).1) =
                ground (arith, got, found) in
              let fine : (collect g w4).0 ≡ ok tt = ap (λ o. o.0.1) (sym e) ∙ ap (λ o. o.1) done in
              let left : (view (collect g w4).1).has v ≡ true =
                ap (λ o. (view o.1).has v) (sym e) ∙ there in
              let collected = collect_gone view store g P R L.has_name v w4 fine in
              let unmarked : has_prefix v gc_prefix ≡ false = ground (arith, left, collected) in
              let gone =
                mark_unused_gone unused v w2 markable marked unmarked
                  (λ m. ap (λ s. s.has (gc_prefix ++ v)) same2 ∙ free v m) in
              ground
                (arith, left, collected, unmarked, kept, gone, members v, ap (λ s. s.has v) same2)
        ]
