-- ===== src/Gc/Progress.antt =====
-- What is left after a clean in which nothing fails.
use groot_btrfs.Base.{
  ◌≡◌, ◌≢◌, ◌∙◌, sym, ap, refl, true, false, List, [], ◌∷◌, ◌++◌, arith, Bool-cases, inl, inr, All,
}
use mathlib.Core.List.{append_assoc}
use groot_btrfs.Base.Str.{
  Str, codes, size, eqb, eqb_iff, contains, contains_str, has_prefix, append_cancel, replace_first,
}
use groot_btrfs.Base.Str.Laws.{slash_free, replace_first-last, has_prefix-append}
use groot_btrfs.Base.Effect.{wrap, message, Result-cases, succeeded}
use groot_btrfs.Gc.{GarbageCollector, gc_prefix, mark_one, mark_each}
use groot_btrfs.Base.FilePath.Laws.{IsName}
use groot_btrfs.Gc.View.{View, IsWriter}

-- A name with no slash, that is no part of the path of the volumes.
pub record IsPlain (store u : Str) : Type 0 where
  pub no_slash : slash_free u ≡ true
  pub outside : contains_str store u ≡ false

-- The path of the volumes up to the last slash.
abbrev pub root_of : Str → Str
root_of store = store ++ (b'/' ∷ [])

marked-IsName : (u : Str) → IsName u → IsName (gc_prefix ++ u)
unfolding eqb
marked-IsName u h = record { no_slash = h.no_slash; full = refl; no_dot = refl; no_dots = refl }

-- A name is not its own marked name.
marked_ne : (u : Str) → u ≢ gc_prefix ++ u
unfolding size
marked_ne u e = omega (arith, ap size e)

module _ {W : Type 0} (view : W → View) (store : Str) (g : GarbageCollector W) where
  -- A move between names that succeeds, to a name that no volume has, takes the volume from its place,
  -- and a destruction that succeeds destroys; neither makes a volume, but for the one that is moved.
  pub record IsProgress : Type 0 where
    pub move_gone :
        (w : W) (u to : Str)
        → IsName u
        → IsName to
        → u ≢ to
        → (view w).has to ≡ false
        → succeeded (g.volume_driver.move_volume (root_of store ++ u) (root_of store ++ to) w).0
          ≡ true
        → (view (g.volume_driver.move_volume (root_of store ++ u) (root_of store ++ to) w).1).has u
          ≡ false
    pub move_fresh :
        (w : W) (u to v : Str)
        → IsName u
        → IsName to
        → v ≢ to
        → (view w).has v ≡ false
        → (view (g.volume_driver.move_volume (root_of store ++ u) (root_of store ++ to) w).1).has v
          ≡ false
    pub destroy_gone :
        (w : W) (id : Str)
        → IsName id
        → succeeded (g.volume_driver.destroy_volume id w).0 ≡ true
        → (view (g.volume_driver.destroy_volume id w).1).has id ≡ false
    pub destroy_fresh :
        (w : W) (id v : Str)
        → IsName id
        → (view w).has v ≡ false
        → (view (g.volume_driver.destroy_volume id w).1).has v ≡ false

  module _ (L : IsWriter view (root_of store) g) (P : IsProgress) where
    -- Where a volume is moved to when it is marked.
    marked_path :
        (u : Str)
        → IsPlain store u
        → replace_first (root_of store ++ u) u (gc_prefix ++ u) ≡ root_of store ++ (gc_prefix ++ u)
    marked_path u h =
        ap (λ p. replace_first p u (gc_prefix ++ u)) (append_assoc store (b'/' ∷ []) u)
        ∙ replace_first-last store u (gc_prefix ++ u) h.no_slash h.outside
        ∙ sym (append_assoc store (b'/' ∷ []) (gc_prefix ++ u))

    -- Marking moves a volume from its name to its marked name.
    marking :
        (u path : Str) (w : W)
        → IsPlain store u
        → path ≡ root_of store ++ u
        → g.volume_driver.move_volume path (replace_first path u (gc_prefix ++ u)) w
          ≡ g.volume_driver.move_volume (root_of store ++ u) (root_of store ++ (gc_prefix ++ u)) w
    marking u path w h e =
        ap (λ p. g.volume_driver.move_volume p (replace_first p u (gc_prefix ++ u)) w) e
        ∙ ap (λ t. g.volume_driver.move_volume (root_of store ++ u) t w) (marked_path u h)

    mark_one_fresh :
        (u v : Str) (messages : List Str) (w : W)
        → IsPlain store u
        → IsName u
        → v ≢ gc_prefix ++ u
        → (view w).has v ≡ false
        → (view (mark_one g u messages w).1).has v ≡ false
    unfolding mark_one
    mark_one_fresh u v messages w h named other absent =
        let (found, w1) = g.volume_driver.volume_path u w in
        let still : (view w1).has v ≡ false = ap (λ s. s.has v) (L.path_view w u) ∙ absent in
        elim (Result-cases found) [
          | inr (x, failed) ↦ ground (arith, failed, still)
          | inl (path, located) ↦
              let to = replace_first path u (gc_prefix ++ u) in
              let moved : (view (g.volume_driver.move_volume path to w1).1).has v ≡ false =
                ap (λ o. (view o.1).has v) (marking u path w1 h (L.path_eq w u path named located))
                ∙ P.move_fresh w1 u (gc_prefix ++ u) v named (marked-IsName u named) other still in
              ground (arith, located, moved)
        ]

    no_message : (ms : List Str) (m : Str) → ms ++ (m ∷ []) ≡ [] → ⊥
    no_message [] m e = cc
    no_message (n ∷ ms) m e = cc

    -- A round of the marking that adds no message has moved the volume.
    mark_one_moved :
        (u : Str) (messages : List Str) (w : W)
        → IsPlain store u
        → IsName u
        → (mark_one g u messages w).0 ≡ []
        → (messages ≡ [])
          × let w1 = (g.volume_driver.volume_path u w).1 in
            let o =
              g.volume_driver.move_volume
                (root_of store ++ u)
                (root_of store ++ (gc_prefix ++ u))
                w1 in
            (succeeded o.0 ≡ true) × ((mark_one g u messages w).1 ≡ o.1)
    unfolding mark_one
    mark_one_moved u messages w h named none =
        let (found, w1) = g.volume_driver.volume_path u w in
        elim (Result-cases found) [
          | inr (x, failed) ↦ absurd (
              ground (
                arith,
                failed,
                none,
                no_message messages (message (wrap x (codes "fetching-volume-path"))),
              ))
          | inl (path, located) ↦
              let to = replace_first path u (gc_prefix ++ u) in
              let same = marking u path w1 h (L.path_eq w u path named located) in
              elim (Result-cases (g.volume_driver.move_volume path to w1).0) [
                | inr (x, failed) ↦ absurd (
                    ground (
                      arith,
                      located,
                      failed,
                      none,
                      no_message messages (message (wrap x (codes "moving-volume"))),
                    ))
                | inl (_, moved) ↦
                    let e : mark_one g u messages w
                        ≡ (messages, (g.volume_driver.move_volume path to w1).1) =
                      ground (arith, located, moved) in
                    (
                      sym (ap (λ o. o.0) e) ∙ none,
                      (
                        sym (ap (λ o. succeeded o.0) same) ∙ ap succeeded moved,
                        ap (λ o. o.1) e ∙ ap (λ o. o.1) same,
                      ),
                    )
              ]
        ]

    mark_one_gone :
        (u : Str) (messages : List Str) (w : W)
        → IsPlain store u
        → IsName u
        → (view w).has (gc_prefix ++ u) ≡ false
        → (mark_one g u messages w).0 ≡ []
        → (view (mark_one g u messages w).1).has u ≡ false
    mark_one_gone u messages w h named free none =
        let (_, (fine, e)) = mark_one_moved u messages w h named none in
        let w1 = (g.volume_driver.volume_path u w).1 in
        ap (λ t. (view t).has u) e
        ∙ P.move_gone w1 u (gc_prefix ++ u) named (marked-IsName u named) (marked_ne u)
            (ap (λ s. s.has (gc_prefix ++ u)) (L.path_view w u) ∙ free) fine

    -- The volumes to be marked.
    abbrev pub Markable : List Str → Type 0
    Markable volumes = All (λ u. IsPlain store u × IsName u) volumes

    pub mark_each_fresh :
        (volumes : List Str) (v : Str) (messages : List Str) (w : W)
        → Markable volumes
        → has_prefix v gc_prefix ≡ false
        → (view w).has v ≡ false
        → (view (mark_each g messages volumes w).1).has v ≡ false
    unfolding mark_each
    mark_each_fresh [] v messages w h out absent = absent
    mark_each_fresh (u ∷ volumes) v messages w h out absent =
        let (messages', w1) = mark_one g u messages w in
        mark_each_fresh volumes v messages' w1 h.1 out (
          mark_one_fresh u v messages w h.0.0 h.0.1
            (λ e. cc (out, ap (λ t. has_prefix t gc_prefix) e, has_prefix-append gc_prefix u))
            absent)

    mark_each_none :
        (volumes : List Str) (messages : List Str) (w : W)
        → Markable volumes
        → (mark_each g messages volumes w).0 ≡ []
        → messages ≡ []
    unfolding mark_each
    mark_each_none [] messages w h none = none
    mark_each_none (u ∷ volumes) messages w h none =
        let (messages', w1) = mark_one g u messages w in
        (mark_one_moved u messages w h.0.0 h.0.1 (mark_each_none volumes messages' w1 h.1 none)).0

    pub mark_each_gone :
        (volumes : List Str) (v : Str) (messages : List Str) (w : W)
        → Markable volumes
        → (mark_each g messages volumes w).0 ≡ []
        → contains volumes v ≡ true
        → has_prefix v gc_prefix ≡ false
        → (view w).has (gc_prefix ++ v) ≡ false
        → (view (mark_each g messages volumes w).1).has v ≡ false
    unfolding mark_each contains
    mark_each_gone [] v messages w h none listed out free = cc
    mark_each_gone (u ∷ volumes) v messages w h none listed out free =
        let (messages', w1) = mark_one g u messages w in
        elim (Bool-cases (eqb u v)) [
          | inl same ↦
              let e : u ≡ v = (eqb_iff u v).0 same in
              let gone : (view w1).has v ≡ false =
                ap (λ t. (view w1).has t) (sym e)
                ∙ mark_one_gone u messages w h.0.0 h.0.1
                    (ap (λ t. (view w).has (gc_prefix ++ t)) e ∙ free)
                    (mark_each_none volumes messages' w1 h.1 none) in
              mark_each_fresh volumes v messages' w1 h.1 out gone
          | inr other ↦
              mark_each_gone volumes v messages' w1 h.1 none (ground (arith, other, listed)) out (
                mark_one_fresh u (gc_prefix ++ v) messages w h.0.0 h.0.1
                  (λ e. cc (other, (eqb_iff u v).1 (sym (append_cancel gc_prefix v u e)))) free)
        ]
