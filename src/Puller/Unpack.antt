-- ===== src/Puller/Unpack.antt =====
-- `unpackLayer` as a whole: what it does to the volumes.
use groot_btrfs.Base.{
  ◌≡◌, ◌∙◌, ap, subst₂, ◌≢◌, Bool, true, false, [], ◌++◌, refl, Bool-cases, arith, inl, inr,
}
use groot_btrfs.Base.Int.{ℤ}
use groot_btrfs.Base.Str.{Str, codes, eqb, eqb_iff, contains_str, replace_first}
use groot_btrfs.Base.Str.Laws.{
  slash_free, slash_free-append, contains_str-append, contains_str-shorter, replace_first-last,
}
use groot_btrfs.Base.FilePath.{base}
use groot_btrfs.Base.FilePath.Laws.{IsName}
use groot_btrfs.Base.Decimal.{itoa}
use groot_btrfs.Base.Decimal.Laws.{itoa-slash_free}
use groot_btrfs.Base.Effect.{ok, Result-cases, succeeded}
use groot_btrfs.Groot.{LayerInfo, BaseImageSpec}
use groot_btrfs.Puller.{
  BaseImagePuller, UnpackSpec, UnpackOutput, VolumeMeta, temp_volume_name, unpack_or_destroy,
  prepare_base_directory, create_temporary_volume_directory, unpack_layer_to_temporary_directory,
  finalize_volume, unpack_layer, fill_volume,
}
use groot_btrfs.Puller.Store.{View, at, IsVolumeId, StaysIn, IsDriver, IsAside}
use groot_btrfs.Puller.Steps.{
  view-prepare_base_directory, create_temporary_other, create_temporary_held, create_temporary_path,
}

-- A change that leaves every volume but `chain` and the temporary one alone, does not create that one, and holds the locks
-- that were held.
pub record Leaves (chain name : Str) (s t : View) : Type 0 where
  pub other : (v : Str) → v ≢ chain → v ≢ name → t.has v ≡ s.has v
  pub absent : s.has chain ≡ false → t.has chain ≡ false
  pub held : t.held ≡ s.held

-- A change that makes the finished volume `chain` exist or not, and leaves the other finished
-- volumes alone.
pub record Makes (store chain : Str) (made : Bool) (s t : View) : Type 0 where
  pub other : (v : Str) → v ≢ chain → IsVolumeId store v → t.has v ≡ s.has v
  pub self : t.has chain ≡ made
  pub held : t.held ≡ s.held

Leaves-same : {chain name : Str} {s t : View} → t ≡ s → Leaves chain name s t
Leaves-same {chain} e = record {
  other = λ v h k. ap (λ r. r.has v) e;
  absent = λ h. ap (λ r. r.has chain) e ∙ h;
  held = ap (λ r. r.held) e;
}

not_in_nil : contains_str [] (codes "-incomplete-") ≡ false
unfolding contains_str
not_in_nil = refl

not_in_dot : contains_str (codes ".") (codes "-incomplete-") ≡ false
unfolding contains_str
not_in_dot = refl

not_in_dots : contains_str (codes "..") (codes "-incomplete-") ≡ false
unfolding contains_str
not_in_dots = refl

module _ {W Stream : Type 0} (p : BaseImagePuller W Stream) where
  -- A finished volume's id is no temporary name.
  pub temp_ne :
      (store v : Str) (info : LayerInfo)
      → IsVolumeId store v
      → (nano random : ℤ) → v ≢ temp_volume_name p info nano random
  unfolding temp_volume_name
  temp_ne store v info h nano random e = cc (
    h.finished,
    ap (λ s. contains_str s (codes "-incomplete-")) e,
    contains_str-append info.chain_id (codes "-incomplete-")
        (itoa nano ++ (codes "-" ++ itoa random)),
  )

  pub temp_slash_free :
      (store : Str) (info : LayerInfo) (nano random : ℤ)
      → IsVolumeId store info.chain_id
      → slash_free (temp_volume_name p info nano random) ≡ true
  unfolding temp_volume_name
  temp_slash_free store info nano random h = ground (
    arith,
    h.name.no_slash,
    slash_free-append info.chain_id
        (codes "-incomplete-" ++ (itoa nano ++ (codes "-" ++ itoa random))),
    slash_free-append (itoa nano) (codes "-" ++ itoa random),
    itoa-slash_free nano,
    itoa-slash_free random,
  )

  -- A text with a part that another has not is not that other one.
  apart :
      (s t part : Str) → contains_str s part ≡ true → contains_str t part ≡ false → eqb s t ≡ false
  apart s t part h k = elim (Bool-cases (eqb s t)) [
    | inl same ↦ absurd (cc (h, k, ap (λ x. contains_str x part) ((eqb_iff s t).0 same)))
    | inr other ↦ other
  ]

  -- A temporary name is a plain name.
  pub temp-IsName :
      (store : Str) (info : LayerInfo)
      → IsVolumeId store info.chain_id
      → (nano random : ℤ) → IsName (temp_volume_name p info nano random)
  unfolding temp_volume_name
  temp-IsName store info h nano random =
      let part = codes "-incomplete-" in
      let name = temp_volume_name p info nano random in
      let has : contains_str name part ≡ true =
        contains_str-append info.chain_id part (itoa nano ++ (codes "-" ++ itoa random)) in
      record {
        no_slash = temp_slash_free store info nano random h;
        full = apart name [] part has not_in_nil;
        no_dot = apart name (codes ".") part has not_in_dot;
        no_dots = apart name (codes "..") part has not_in_dots;
      }

  -- The final path: the temporary name is the last element, so it is what is replaced.
  pub final_path :
      (store : Str) (info : LayerInfo) (nano random : ℤ)
      → IsVolumeId store info.chain_id
      → let name = temp_volume_name p info nano random in
        replace_first (at store name) name info.chain_id ≡ at store info.chain_id
  unfolding temp_volume_name
  final_path store info nano random h =
      replace_first-last store _ info.chain_id (temp_slash_free store info nano random h) (
        contains_str-shorter store info.chain_id
          (codes "-incomplete-" ++ (itoa nano ++ (codes "-" ++ itoa random))) h.outside)

module _ {W Stream : Type 0} (view : W → View) (store : Str) (p : BaseImagePuller W Stream)
    (D : IsDriver view store p) (A : IsAside view store p) where
  unpack_or_destroy-Leaves :
      (spec : UnpackSpec Stream) (info : LayerInfo) (name : Str) (w : W)
      → IsName info.chain_id
      → IsName name
      → spec.target_path ≡ at store name
      → info.chain_id ≢ name
      → Leaves info.chain_id name (view w) (view (unpack_or_destroy p spec info w).1)
  unfolding unpack_or_destroy
  unpack_or_destroy-Leaves spec info name w n named located apart =
      let w1 = (p.unpack spec w).1 in
      elim (Result-cases (p.unpack spec w).0) [
        | inl (output, fine) ↦ record {
          other = λ v h k. ground (arith, fine, A.unpack_other w spec name v named located k);
          absent = λ h.
              ground (arith, fine, A.unpack_other w spec name info.chain_id named located apart);
          held = ground (arith, fine, A.unpack_held w spec);
        }
        | inr (x, failed) ↦ record {
          other = λ v h k. ground (
            arith,
            failed,
            A.unpack_other w spec name v named located k,
            D.destroy_other w1 info.chain_id v n h,
          );
          absent = λ h. ground (
            arith,
            failed,
            A.unpack_other w spec name info.chain_id named located apart,
            D.destroy_self w1 info.chain_id n,
          );
          held = ground (arith, failed, A.unpack_held w spec, D.destroy_held w1 info.chain_id);
        }
      ]

  unpack_or_destroy_plain :
      (spec : UnpackSpec Stream) (info : LayerInfo) (w : W) (output : UnpackOutput)
      → (unpack_or_destroy p spec info w).0 ≡ ok output
      → output.opaque_whiteouts ≡ []
  unfolding unpack_or_destroy
  unpack_or_destroy_plain spec info w output e = elim (Result-cases (p.unpack spec w).0) [
    | inl (made, fine) ↦ A.unpack_plain w spec output (ground (arith, fine))
    | inr (x, failed) ↦ ground (arith, failed)
  ]

  unpack_layer_to_temporary_directory-Leaves :
      (spec : UnpackSpec Stream) (info parent : LayerInfo) (name : Str) (w : W)
      → IsName info.chain_id
      → IsName name
      → spec.target_path ≡ at store name
      → StaysIn store spec.base_directory
      → info.chain_id ≢ name
      → Leaves info.chain_id name
          (view w)
          (view (unpack_layer_to_temporary_directory p spec info parent w).1)
  unfolding unpack_layer_to_temporary_directory
  unpack_layer_to_temporary_directory-Leaves spec info parent name w n named located inside apart =
      let (r1, w1) = prepare_base_directory p spec parent w in
      let same : view w1 ≡ view w =
        view-prepare_base_directory view store p D A spec parent name w named located inside in
      let (r2, w2) = unpack_or_destroy p spec info w1 in
      elim (Result-cases r1) [
        | inr (x, failed) ↦ Leaves-same (ground (arith, failed, same))
        | inl (_, ready) ↦
            subst₂ (Leaves info.chain_id name) same
              (elim (Result-cases r2) [
                | inr (x, failed) ↦ ground (arith, ready, failed)
                | inl (output, fine) ↦ ground (
                  arith,
                  ready,
                  fine,
                  unpack_or_destroy_plain spec info w1 output fine,
                  D.whiteouts_view w2 (base spec.target_path),
                )
              ])
              (unpack_or_destroy-Leaves spec info name w1 n named located apart)
      ]

  -- Metadata is written and the temporary volume is moved to its final place.
  finalize_volume-Makes :
      (info : LayerInfo) (nano random size : ℤ) (w : W)
      → IsVolumeId store info.chain_id
      → (view w).has info.chain_id ≡ false
      → let name = temp_volume_name p info nano random in
        let (r, w') = finalize_volume p name (at store name) info.chain_id size w in
        Makes store info.chain_id (succeeded r) (view w) (view w')
  unfolding finalize_volume
  finalize_volume-Makes info nano random size w h absent =
      let chain = info.chain_id in
      let name = temp_volume_name p info nano random in
      let meta : VolumeMeta = record { size = size } in
      let w1 = (p.volume_driver.write_volume_meta chain meta w).1 in
      let same : view w1 ≡ view w = D.meta_view w chain meta h.name in
      elim (Result-cases (p.volume_driver.write_volume_meta chain meta w).0) [
        | inr (x, failed) ↦ record {
          other = λ v ne hv. ground (arith, failed, same);
          self = ground (arith, failed, same);
          held = ground (arith, failed, same);
        }
        | inl (_, written) ↦ rw (final_path p store info nano random h) (record {
          other = λ v ne hv. ground (
            arith,
            written,
            same,
            D.move_other w1 name chain v (temp-IsName p store info h nano random) h.name
                (temp_ne p store v info hv nano random) ne,
          );
          self = ground (
            arith,
            written,
            same,
            D.move_target w1 name chain (temp-IsName p store info h nano random) h.name,
          );
          held = ground (arith, written, same, D.move_held w1 (at store name) (at store chain));
        })
      ]

  fill_volume-Makes :
      (info parent : LayerInfo) (spec : BaseImageSpec) (stream : Stream) (nano random : ℤ) (w : W)
      → IsVolumeId store info.chain_id
      → StaysIn store info.base_directory
      → (view w).has info.chain_id ≡ false
      → let name = temp_volume_name p info nano random in
        let (r, w') = fill_volume p info parent spec stream name (at store name) w in
        Makes store info.chain_id (succeeded r) (view w) (view w')
  unfolding fill_volume
  fill_volume-Makes info parent spec stream nano random w h inside absent =
      let chain = info.chain_id in
      let name = temp_volume_name p info nano random in
      let target : UnpackSpec Stream = record {
        stream = stream;
        target_path = at store name;
        uid_mappings = spec.uid_mappings;
        gid_mappings = spec.gid_mappings;
        base_directory = info.base_directory;
      } in
      let (r1, w1) = unpack_layer_to_temporary_directory p target info parent w in
      let left =
        unpack_layer_to_temporary_directory-Leaves target info parent name w h.name
          (temp-IsName p store info h nano random) refl inside
          (temp_ne p store chain info h nano random) in
      elim (Result-cases r1) [
        | inr (x, failed) ↦ record {
          other = λ v ne hv.
              ground (arith, failed, left.other v ne (temp_ne p store v info hv nano random));
          self = ground (arith, failed, left.absent absent);
          held = ground (arith, failed, left.held);
        }
        | inl (size, filled) ↦
            let last = finalize_volume-Makes info nano random size w1 h (left.absent absent) in
            record {
              other = λ v ne hv. ground (
                arith,
                filled,
                last.other v ne hv,
                left.other v ne (temp_ne p store v info hv nano random),
              );
              self = ground (arith, filled, last.self);
              held = ground (arith, filled, last.held, left.held);
            }
      ]

  -- Where the layer's volume is not there yet, `unpackLayer` creates it exactly if it succeeds.
  pub unpack_layer-Makes :
      (info parent : LayerInfo) (spec : BaseImageSpec) (stream : Stream) (w : W)
      → IsVolumeId store info.chain_id
      → StaysIn store info.base_directory
      → (view w).has info.chain_id ≡ false
      → Makes store info.chain_id
          (succeeded (unpack_layer p info parent spec stream w).0)
          (view w)
          (view (unpack_layer p info parent spec stream w).1)
  unfolding unpack_layer
  unpack_layer-Makes info parent spec stream w h inside absent =
      let chain = info.chain_id in
      let (r1, w1) = create_temporary_volume_directory p info spec w in
      let fresh = λ (v : Str) (hv : IsVolumeId store v). temp_ne p store v info hv in
      let early = λ (v : Str) (hv : IsVolumeId store v).
        create_temporary_other view store p D A info spec w v (temp-IsName p store info h)
          (fresh v hv) in
      let kept = create_temporary_held view store p D A info spec w in
      elim (Result-cases r1) [
        | inr (x, failed) ↦ record {
          other = λ v ne hv. ground (arith, failed, early v hv);
          self = ground (arith, failed, early chain h);
          held = ground (arith, failed, kept);
        }
        | inl ((name, path), created) ↦
            let (nano, random, named, located) =
              create_temporary_path view store p D A info spec w name path
                (temp-IsName p store info h) created in
            let last =
              fill_volume-Makes info parent spec stream nano random w1 h inside
                (early chain h ∙ absent) in
            record {
              other = λ v ne hv.
                  ground (arith, created, named, located, last.other v ne hv, early v hv);
              self = ground (arith, created, named, located, last.self);
              held = ground (arith, created, named, located, last.held, kept);
            }
      ]
