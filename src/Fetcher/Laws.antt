-- ===== src/Fetcher/Laws.antt =====
-- The links between the layers of a base image, and when there are layers.
use groot_btrfs.Base.{
  ◌≡◌, refl, Bool, true, false, ◌&&◌, ◌||◌, List, [], ◌∷◌, arith, inl, inr, none, some, subst,
}
use groot_btrfs.Base.Str.{Str, codes, eqb, contains_str}
use groot_btrfs.Base.Str.Laws.{has_prefix-nil}
use groot_btrfs.Base.Effect.{ok, Result-cases, succeeded}
use groot_btrfs.Groot.{LayerInfo}
use groot_btrfs.Fetcher.{
  LayerFetcher, BlobInfo, diff_part, second_part, chain_id_of, layer_info, value_of,
  base_directory_annotation, layer_infos_from, create_layer_infos,
}

-- One layer for each of the image's, from the bottom one up: each has the blob of its place, the
-- layer before it as its parent, and the chain id of its diff id on top of the parent's.
abbrev pub Linked :
    {W Stream : Type 0}
    → LayerFetcher W Stream
    → Str
    → List BlobInfo
    → List Str
    → List LayerInfo
    → Type 0
Linked f parent [] diff_ids [] = Unit
Linked f parent [] diff_ids (_ ∷ _) = ⊥
Linked f parent (_ ∷ _) [] infos = ⊥
Linked f parent (_ ∷ _) (_ ∷ _) [] = ⊥
Linked f parent (layer ∷ layers) (diff_id ∷ diff_ids) (info ∷ infos) =
    (info.blob_id ≡ layer.digest)
    × (info.size ≡ layer.size)
    × (info.parent_chain_id ≡ parent)
    × ((part : Str) × (diff_part diff_id ≡ ok part) × (info.chain_id ≡ chain_id_of f part parent))
    × Linked f info.chain_id layers diff_ids infos

-- Each layer has a diff id with a colon.
abbrev pub has_parts : List BlobInfo → List Str → Bool
has_parts [] diff_ids = true
has_parts (_ ∷ layers) [] = false
has_parts (_ ∷ layers) (diff_id ∷ diff_ids) =
    contains_str diff_id (codes ":") && has_parts layers diff_ids

pub second_part-contains_str :
    (s : Str)
    → contains_str s (codes ":") ≡ elim (second_part s) [ none ↦ false | some part ↦ true ]
unfolding second_part contains_str
second_part-contains_str [] = refl
second_part-contains_str (c ∷ s) = ground (arith, second_part-contains_str s, has_prefix-nil s)

diff_part_iff : (s : Str) → succeeded (diff_part s) ≡ (eqb s [] || contains_str s (codes ":"))
unfolding diff_part
diff_part_iff s = ground (arith, second_part-contains_str s)

abbrev pub made : BlobInfo → Str → Str → Str → LayerInfo
made layer hex chain parent = record {
  blob_id = layer.digest;
  chain_id = chain;
  diff_id = hex;
  parent_chain_id = parent;
  size = layer.size;
  base_directory = value_of layer.annotations base_directory_annotation;
  urls = layer.urls;
  media_type = layer.media_type;
}

-- `Digest.Hex` is what follows the colon, and panics on a text without one.
abbrev pub HasHex : {W Stream : Type 0} → LayerFetcher W Stream → Type 0
HasHex f = (s : Str) → succeeded (f.hex s) ≡ contains_str s (codes ":")

module _ {W Stream : Type 0} (f : LayerFetcher W Stream) where
  layer_infos_from-Linked :
      (parent : Str) (layers : List BlobInfo) (diff_ids : List Str) (infos : List LayerInfo)
      → layer_infos_from f parent layers diff_ids ≡ ok infos
      → Linked f parent layers diff_ids infos
  unfolding layer_infos_from layer_info
  layer_infos_from-Linked parent [] diff_ids [] e = tt
  layer_infos_from-Linked parent [] diff_ids (i ∷ is) e = ground arith
  layer_infos_from-Linked parent (l ∷ layers) [] infos e = ground arith
  layer_infos_from-Linked parent (l ∷ layers) (d ∷ diff_ids) infos e =
      elim (Result-cases (diff_part d)) [
        | inr (x, failed) ↦ absurd (ground (arith, failed))
        | inl (part, found) ↦
            let chain = chain_id_of f part parent in
            elim (Result-cases (f.hex d)) [
              | inr (x, failed) ↦ absurd (ground (arith, found, failed))
              | inl (hex, read) ↦ elim (Result-cases (layer_infos_from f chain layers diff_ids)) [
                | inr (x, failed) ↦ absurd (ground (arith, found, read, failed))
                | inl (rest, built) ↦
                    let info : LayerInfo = made l hex chain parent in
                    let is : info ∷ rest ≡ infos = ground (arith, found, read, built) in
                    subst (Linked f parent (l ∷ layers) (d ∷ diff_ids)) is (
                      refl,
                      refl,
                      refl,
                      (part, found, refl),
                      layer_infos_from-Linked chain layers diff_ids rest built,
                    )
              ]
            ]
      ]

  -- The layers of a base image are linked, from the empty parent on.
  pub create_layer_infos-Linked :
      (layers : List BlobInfo) (diff_ids : List Str) (infos : List LayerInfo)
      → create_layer_infos f layers diff_ids ≡ ok infos
      → Linked f [] layers diff_ids infos
  unfolding create_layer_infos
  create_layer_infos-Linked layers diff_ids infos e =
      layer_infos_from-Linked [] layers diff_ids infos e

  layer_infos_from_iff :
      HasHex f
      → (parent : Str) (layers : List BlobInfo) (diff_ids : List Str)
      → succeeded (layer_infos_from f parent layers diff_ids) ≡ has_parts layers diff_ids
  unfolding layer_infos_from layer_info
  layer_infos_from_iff H parent [] diff_ids = refl
  layer_infos_from_iff H parent (l ∷ layers) [] = refl
  layer_infos_from_iff H parent (l ∷ layers) (d ∷ diff_ids) = elim (Result-cases (diff_part d)) [
    | inr (x, failed) ↦ ground (arith, failed, diff_part_iff d)
    | inl (part, found) ↦ elim (Result-cases (f.hex d)) [
      | inr (x, failed) ↦ ground (arith, found, failed, H d)
      | inl (hex, read) ↦ ground (
        arith,
        found,
        read,
        H d,
        layer_infos_from_iff H (chain_id_of f part parent) layers diff_ids,
      )
    ]
  ]

  -- The layers of a base image are built, and the code does not panic, exactly if each layer has a
  -- diff id with a colon, where `Digest.Hex` panics exactly on a text without one.
  pub create_layer_infos_iff :
      HasHex f
      → (layers : List BlobInfo) (diff_ids : List Str)
      → succeeded (create_layer_infos f layers diff_ids) ≡ has_parts layers diff_ids
  unfolding create_layer_infos
  create_layer_infos_iff H = layer_infos_from_iff H []
