-- ===== src/Tests/Fetcher.antt =====
-- The layers of a manifest with two blobs.
use groot_btrfs.Base.{◌≡◌, refl, false, List, [], ◌∷◌, ◌++◌, ℕ, none, some, arith}
use groot_btrfs.Base.Int.{pos}
use groot_btrfs.Base.Str.{Str, codes, eqb, contains_str}
use groot_btrfs.Base.Effect.{ok, err, fatal, not_exist, succeeded}
use groot_btrfs.Groot.{LayerInfo}
use groot_btrfs.Fetcher.{
  LayerFetcher, BlobInfo, create_layer_infos, layer_info, second_part, base_directory_annotation,
}
use groot_btrfs.Fetcher.Laws.{
  HasHex, made, second_part-contains_str, Linked, create_layer_infos-Linked, create_layer_infos_iff,
}

abbrev fetcher : LayerFetcher ℕ ℕ
fetcher = record {
  manifest = λ url w. (err not_exist, w);
  blob = λ url info w. (err not_exist, w);
  new_blob_reader = λ path w. (ok 0, w);
  hex = λ digest. elim (second_part digest) [ none ↦ err fatal | some part ↦ ok part ];
  hex_sha256 = λ text. codes "h:" ++ text;
}

abbrev blob : Str → BlobInfo
blob digest = record {
  digest = digest;
  size = pos 10;
  annotations = (base_directory_annotation, codes "/home") ∷ [];
  urls = [];
  media_type = [];
}

abbrev blobs : List BlobInfo
blobs = blob (codes "b1") ∷ blob (codes "b2") ∷ []

abbrev diff_ids : List Str
diff_ids = codes "sha256:d1" ∷ codes "sha256:d2" ∷ []

abbrev infos : List LayerInfo
infos =
    made (blob (codes "b1")) (codes "d1") (codes "d1") []
    ∷ made (blob (codes "b2")) (codes "d2") (codes "h:d1 d2") (codes "d1")
    ∷ []

infos_run : create_layer_infos fetcher blobs diff_ids ≡ ok infos
unfolding create_layer_infos layer_info second_part
infos_run = refl

create_layer_infos-Linked_example : Linked fetcher [] blobs diff_ids infos
create_layer_infos-Linked_example = create_layer_infos-Linked fetcher blobs diff_ids infos infos_run

fetcher-HasHex : HasHex fetcher
fetcher-HasHex s = ground (arith, second_part-contains_str s)

-- Without a diff id the code panics.
empty_run : create_layer_infos fetcher (blob (codes "b1") ∷ []) ([] ∷ []) ≡ err fatal
unfolding create_layer_infos layer_info second_part
empty_run = refl

create_layer_infos_iff_example :
    succeeded (create_layer_infos fetcher blobs (codes "d1" ∷ [])) ≡ false
unfolding contains_str eqb
create_layer_infos_iff_example =
    create_layer_infos_iff fetcher fetcher-HasHex blobs (codes "d1" ∷ [])
