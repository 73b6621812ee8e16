-- ===== src/Puller/Quota.antt =====
-- The quota check and its sum in 64 bits.
use groot_btrfs.Base.{◌≡◌, ◌∙◌, sym, not, ◌||◌, List, [], ◌∷◌, arith}
use groot_btrfs.Base.Int.{
  ℤ, pos, ◌+ℤ◌, ◌≤ℤ◌, ltb_ℤ, eqb_ℤ, add64, add64-eq, IsInt64, int_laws, +ℤ_parts, nonneg_parts,
}
use groot_btrfs.Base.Effect.{succeeded}
use groot_btrfs.Groot.{LayerInfo, BaseImageSpec}
use groot_btrfs.Puller.{layers_size_onto, layers_size, quota_exceeded}

-- The sum of the sizes, with no bound.
abbrev pub total_size : List LayerInfo → ℤ
total_size [] = pos 0
total_size (info ∷ infos) = info.size +ℤ total_size infos

-- Every size is known and not negative.
abbrev pub KnownSizes : List LayerInfo → Type 0
KnownSizes [] = Unit
KnownSizes (info ∷ infos) = (pos 0 ≤ℤ info.size) × KnownSizes infos

total_size_nonneg : (infos : List LayerInfo) → KnownSizes infos → pos 0 ≤ℤ total_size infos
total_size_nonneg [] h = omega arith
total_size_nonneg (info ∷ infos) h =
    omega (arith, +ℤ_parts info.size (total_size infos), total_size_nonneg infos h.1)

layers_size_onto-eq :
    (total : ℤ) (infos : List LayerInfo)
    → pos 0 ≤ℤ total
    → KnownSizes infos
    → IsInt64 (total +ℤ total_size infos)
    → layers_size_onto total infos ≡ total +ℤ total_size infos
unfolding layers_size_onto
layers_size_onto-eq total [] p h b = omega int_laws
layers_size_onto-eq total (info ∷ infos) p h b =
    let rest = total_size infos in
    let hr = total_size_nonneg infos h.1 in
    let all = nonneg_parts total (info.size +ℤ rest) p (total_size_nonneg (info ∷ infos) h) in
    let both = nonneg_parts info.size rest h.0 hr in
    let start = nonneg_parts total info.size p h.0 in
    let same : total +ℤ (info.size +ℤ rest) ≡ total +ℤ info.size +ℤ rest = omega int_laws in
    let added : add64 total info.size ≡ total +ℤ info.size =
      add64-eq total info.size (omega arith) (omega arith) (omega arith) in
    rw added
      (layers_size_onto-eq (total +ℤ info.size) infos (omega arith) h.1 (rw (← same) b) ∙ sym same)

-- The sizes add up without overflow where their sum is an `int64`.
pub layers_size-eq :
    (infos : List LayerInfo)
    → KnownSizes infos
    → IsInt64 (total_size infos)
    → layers_size infos ≡ total_size infos
unfolding layers_size
layers_size-eq infos h b =
    let same : pos 0 +ℤ total_size infos ≡ total_size infos = omega int_laws in
    layers_size_onto-eq (pos 0) infos (omega arith) h (rw same b) ∙ same

-- Where every size is known and the sum fits into 64 bits, a pull is refused exactly if a limit is
-- set, base images count against it, and the layers together are larger than it.
pub quota_exceeded_iff :
    (infos : List LayerInfo) (spec : BaseImageSpec)
    → KnownSizes infos
    → IsInt64 (total_size infos)
    → succeeded (quota_exceeded infos spec) ≡ (
        spec.exclude_base_image_from_quota
        || (eqb_ℤ spec.disk_limit (pos 0) || not (ltb_ℤ spec.disk_limit (total_size infos))))
unfolding quota_exceeded
quota_exceeded_iff infos spec h b = ground (arith, layers_size-eq infos h b)
