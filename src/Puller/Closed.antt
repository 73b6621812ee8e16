-- ===== src/Puller/Closed.antt =====
-- What `buildLayer` and `Pull` do to the volumes of the layers.
use groot_btrfs.Base.{
  ◌≡◌, refl, ◌∙◌, sym, ap, true, false, List, [], ◌∷◌, arith, inl, inr, Bool-cases, subst,
}
use mathlib.Core.List.{reverse}
use groot_btrfs.Base.FilePath.Laws.{IsName}
use groot_btrfs.Base.Str.{Str, codes, contains}
use groot_btrfs.Base.Effect.{M, ⊤, Result, ok, err, wrap, Result-cases, succeeded}
use groot_btrfs.Groot.{LayerInfo, BaseImageInfo, BaseImageSpec}
use groot_btrfs.Groot.Creator.{chain_ids}
use groot_btrfs.Puller.{
  BaseImagePuller, volume_exists, download_layer, unpack_layer, unpack_download, build_locked,
  build_one, build_layer, parent_layer, quota_exceeded, pull,
}
use groot_btrfs.Puller.Store.{View, IsVolumeId, StaysIn, IsDriver, IsAside, IsLocking}
use groot_btrfs.Puller.Steps.{view-download_layer}
use groot_btrfs.Puller.Unpack.{Makes, unpack_layer-Makes}
use groot_btrfs.Puller.Layers.{
  AllBuilt-along, Builds, Builds-idle, Closed, Closed-along, IsVolumeId-of_mem, ValidLayers,
  ne_of_mem, out_of_cons,
}

module _ {W Stream : Type 0} (view : W → View) (store : Str) (p : BaseImagePuller W Stream)
    (D : IsDriver view store p) (A : IsAside view store p) where
  unpack_download-Makes :
      (info parent : LayerInfo) (spec : BaseImageSpec) (download : Result Stream) (w : W)
      → IsVolumeId store info.chain_id
      → StaysIn store info.base_directory
      → (view w).has info.chain_id ≡ false
      → Makes store info.chain_id
          (succeeded (unpack_download p info parent spec download w).0)
          (view w)
          (view (unpack_download p info parent spec download w).1)
  unfolding unpack_download
  unpack_download-Makes info parent spec (err e) w h inside absent = record {
    other = λ v ne hv. refl;
    self = absent;
    held = refl;
  }
  unpack_download-Makes info parent spec (ok stream) w h inside absent =
      let made = unpack_layer-Makes view store p D A info parent spec stream w h inside absent in
      let w1 = (unpack_layer p info parent spec stream w).1 in
      let same = A.close_view w1 stream in
      record {
        other = λ v ne hv. ap (λ s. s.has v) same ∙ made.other v ne hv;
        self = ap (λ s. s.has info.chain_id) same ∙ made.self;
        held = ap (λ s. s.held) same ∙ made.held;
      }

  view-exists :
      (v : Str) (w : W)
      → IsName v
      → ((volume_exists p v w).0 ≡ (view w).has v) × (view (volume_exists p v w).1 ≡ view w)
  unfolding volume_exists
  view-exists v w n = ground (arith, D.path_view w v, D.path_has w v n)

  module _ (info : LayerInfo) (below : List LayerInfo) (spec : BaseImageSpec)
      (V : ValidLayers store (info ∷ below)) (build_below : M W ⊤)
      (ih : (w : W)
        → Closed (view w) below
        → Builds store below (succeeded (build_below w).0) (view w) (view (build_below w).1)) where
    build_locked-Builds :
        (w : W)
        → Closed (view w) (info ∷ below)
        → let (r, w') = build_locked p spec info (parent_layer below) build_below w in
          Builds store (info ∷ below) (succeeded r) (view w) (view w')
    unfolding build_locked
    build_locked-Builds w closed =
        let chain = info.chain_id in
        let (found, w1) = volume_exists p chain w in
        let seen = view-exists chain w V.0.name in
        let (download, w2) = download_layer p spec info w1 in
        let same : view w2 ≡ view w = view-download_layer view store p D A spec info w1 ∙ seen.1 in
        let (r3, w3) = build_below w2 in
        let b = ih w2 (subst (λ s. Closed s below) (sym same) closed.1) in
        let run = build_locked p spec info (parent_layer below) build_below w in
        let P =
          λ (o : Result ⊤ × W). Builds store (info ∷ below) (succeeded o.0) (view w) (view o.1) in
        elim (Bool-cases found) [
          | inl there ↦
              let e : run ≡ (ok tt, w1) = ground (arith, there) in
              subst P (sym e) (
                Builds-idle store (info ∷ below) true (view w) (view w1) closed
                  (λ _. (sym seen.0 ∙ there, closed.0 (sym seen.0 ∙ there))) seen.1)
          | inr missing ↦
              let absent3 : (view w3).has chain ≡ false =
                b.other chain V.1 V.0 ∙ ap (λ s. s.has chain) same ∙ sym seen.0 ∙ missing in
              elim (Result-cases r3) [
                | inr (x, failed) ↦
                    let e : run ≡ (err x, w3) = ground (arith, missing, failed) in
                    subst P (sym e) (record {
                      closed = (λ there. cc, b.closed);
                      built = λ h. cc;
                      other = λ v out hv.
                          b.other v (out_of_cons info below v out).1 hv ∙ ap (λ s. s.has v) same;
                      held = b.held ∙ ap (λ s. s.held) same;
                    })
                | inl (_, ready) ↦
                    let (r4, w4) = unpack_download p info (parent_layer below) spec download w3 in
                    let m =
                      unpack_download-Makes info (parent_layer below) spec download w3 V.0 V.2
                        absent3 in
                    let keep = λ (v : Str) (mem : contains (chain_ids below) v ≡ true).
                      m.other v (ne_of_mem chain v (chain_ids below) V.1 mem)
                        (IsVolumeId-of_mem store below v V.3 mem) in
                    let all_below =
                      AllBuilt-along below (view w3) (view w4) keep
                        (b.built (ap succeeded ready)) in
                    let e : run ≡ (r4, w4) = ground (arith, missing, ready) in
                    subst P (sym e) (record {
                      closed = (
                        λ there. all_below,
                        Closed-along below (view w3) (view w4) keep b.closed,
                      );
                      built = λ h. (m.self ∙ h, all_below);
                      other = λ v out hv.
                          m.other v (out_of_cons info below v out).0 hv
                          ∙ b.other v (out_of_cons info below v out).1 hv
                          ∙ ap (λ s. s.has v) same;
                      held = m.held ∙ b.held ∙ ap (λ s. s.held) same;
                    })
              ]
        ]

    module _ (K : IsLocking view store p) where
      build_one-Builds :
          (w : W)
          → Closed (view w) (info ∷ below)
          → let (r, w') = build_one p spec info (parent_layer below) build_below w in
            Builds store (info ∷ below) (succeeded r) (view w) (view w')
      unfolding build_one
      build_one-Builds w closed =
          let chain = info.chain_id in
          let (found, w1) = volume_exists p chain w in
          let seen = view-exists chain w V.0.name in
          let (locked, w2) = p.locksmith.lock chain w1 in
          let here = λ (v : Str). K.lock_has w1 chain v ∙ ap (λ s. s.has v) seen.1 in
          let run = build_one p spec info (parent_layer below) build_below w in
          let P =
            λ (o : Result ⊤ × W). Builds store (info ∷ below) (succeeded o.0) (view w) (view o.1) in
          elim (Bool-cases found) [
            | inl there ↦
                let e : run ≡ (ok tt, w1) = ground (arith, there) in
                subst P (sym e) (
                  Builds-idle store (info ∷ below) true (view w) (view w1) closed
                    (λ _. (sym seen.0 ∙ there, closed.0 (sym seen.0 ∙ there))) seen.1)
            | inr missing ↦ elim (Result-cases locked) [
              | inr (x, failed) ↦
                  let e : run ≡ (err (wrap x (codes "acquiring lock")), w2) =
                    ground (arith, missing, failed) in
                  subst P (sym e) (record {
                    closed = Closed-along (info ∷ below) (view w) (view w2) (λ v m. here v) closed;
                    built = λ h. cc;
                    other = λ v out hv. here v;
                    held = ground (arith, failed, K.lock_held w1 chain, seen.1);
                  })
              | inl (file, got) ↦
                  let (r3, w3) = build_locked p spec info (parent_layer below) build_below w2 in
                  let b =
                    build_locked-Builds w2
                      (Closed-along (info ∷ below) (view w) (view w2) (λ v m. here v) closed) in
                  let w4 = (p.locksmith.unlock file w3).1 in
                  let after = λ (v : Str). K.unlock_has w3 file v in
                  let e : run ≡ (r3, w4) = ground (arith, missing, got) in
                  subst P (sym e) (record {
                    closed =
                        Closed-along (info ∷ below) (view w3) (view w4) (λ v m. after v) b.closed;
                    built = λ h.
                        AllBuilt-along (info ∷ below) (view w3) (view w4) (λ v m. after v)
                          (b.built h);
                    other = λ v out hv. after v ∙ b.other v out hv ∙ here v;
                    held =
                        ground
                          (arith, got, K.lock_held w1 chain, seen.1, b.held, K.unlock_held w3 file);
                  })
            ]
          ]

  -- Building the layers from the top one down.
  pub build_layer-Builds :
      IsLocking view store p
      → (layers : List LayerInfo) (spec : BaseImageSpec) (w : W) → ValidLayers store layers
      → Closed (view w) layers
      → Builds store layers
          (succeeded (build_layer p spec layers w).0)
          (view w)
          (view (build_layer p spec layers w).1)
  unfolding build_layer
  build_layer-Builds K [] spec w V closed = record {
    closed = tt;
    built = λ _. tt;
    other = λ v out hv. refl;
    held = refl;
  }
  build_layer-Builds K (info ∷ below) spec w V closed =
      build_one-Builds info below spec V (build_layer p spec below)
        (λ w'. build_layer-Builds K below spec w' V.3) K w closed

  -- Pulling a base image whose layers have proper and distinct ids, and base directories that stay in
  -- their volumes, from a store in which no layer has its volume without the layers below it, and no
  -- volume has a symbolic link out of it: afterwards that holds of the layers again, also if the pull
  -- fails; after a success every layer has its volume; no other finished volume has come or gone; and
  -- no lock is left held.
  pub pull-Builds :
      IsLocking view store p
      → (info : BaseImageInfo) (spec : BaseImageSpec) (w : W)
      → ValidLayers store (reverse info.layer_infos)
      → Closed (view w) (reverse info.layer_infos)
      → Builds store
          (reverse info.layer_infos)
          (succeeded (pull p info spec w).0)
          (view w)
          (view (pull p info spec w).1)
  unfolding pull
  pull-Builds K info spec w V closed =
      let layers = reverse info.layer_infos in
      let P = λ (o : Result ⊤ × W). Builds store layers (succeeded o.0) (view w) (view o.1) in
      elim (Result-cases (quota_exceeded info.layer_infos spec)) [
        | inr (x, over) ↦
            let e : pull p info spec w ≡ (err x, w) = ground (arith, over) in
            subst P (sym e) (Builds-idle store layers false (view w) (view w) closed (λ h. cc) refl)
        | inl (_, fits) ↦
            let e : pull p info spec w ≡ build_layer p spec layers w = ground (arith, fits) in
            subst P (sym e) (build_layer-Builds K layers spec w V closed)
      ]
