-- ===== src/Fetcher/Source.antt =====
-- fetcher/layer_fetcher/source/layer_source.go: manifests and blobs of a registry or a directory.
--
-- The image library is a parameter, with its references, images and blobs; so are the hash of package
-- `crypto/sha256`, in hexadecimal, package `compress/gzip`, and temporary files.
pub mod Laws
use groot_btrfs.Base.{
  ℕ, zero, suc, Bool, true, false, ◌&&◌, ◌||◌, List, [], ◌∷◌, ◌++◌, Option, none, some,
  if◌then◌else◌,
}
use groot_btrfs.Base.Int.{ℤ, pos}
use groot_btrfs.Base.Str.{Str, codes, eqb, contains_str}
use groot_btrfs.Base.Effect.{
  M, ⊤, Error, Result, ok, err, wrap, fatal, pure, raise, lift, ◌>>=◌, ◌>>◌, wrapping,
}
use groot_btrfs.Groot.{Url, LayerInfo}
use groot_btrfs.Fetcher.{BlobInfo, second_part}

-- `content` is what reading a blob to its end gives; `gzip_header` tells whether `gzip.NewReader`
-- takes a stream that begins so, and `gunzip` what reading it to its end gives. `copy` writes what is
-- read to a file, which goes by its name.
pub record LayerSource (W Reference Image Source Blob : Type 0) : Type 0 where
  pub skip_oci_checksum_validation : Bool
  pub parse_reference : Str → Str → Result Reference
  pub new_image : Reference → M W Image
  pub new_image_source : Reference → M W Source
  pub config_blob : Image → M W ⊤
  pub manifest_type : Image → M W Str
  pub layer_infos : Image → List BlobInfo
  pub updated_image : Image → List Str → M W Image
  pub get_blob : Source → BlobInfo → M W (Blob × ℤ)
  pub content : Blob → Result Str
  pub close_blob : Blob → M W ⊤
  pub gzip_header : Result Str → Result ⊤
  pub gunzip : Result Str → Result Str
  pub sha256_hex : Str → Str
  pub temp_file : Str → M W Str
  pub copy : Str → Result Str → M W ⊤
  pub close_file : Str → M W ⊤
  pub remove : Str → M W ⊤

unfoldable pub panics : Error → Bool
panics Error.fatal = true
panics _ = false

-- `manifestpkg.DockerV2Schema1MediaType` and `manifestpkg.DockerV2Schema1SignedMediaType`
unfoldable pub is_schema1 : Str → Bool
unfolding eqb
is_schema1 mimetype =
    eqb mimetype (codes "application/vnd.docker.distribution.manifest.v1+json")
    || eqb mimetype (codes "application/vnd.docker.distribution.manifest.v1+prettyjws")

-- `MAX_DOCKER_RETRIES`
abbrev pub max_docker_retries : ℕ
max_docker_retries = 3

-- A loop of attempts: the error is that of the last one.
unfoldable pub attempts : {W A : Type 0} → ℕ → Error → M W A → M W A
attempts zero e call w = (err e, w)
attempts (suc n) e call w =
    let (r, w1) = call w in elim r [ ok a ↦ (ok a, w1) | err x ↦ attempts n x call w1 ]

-- Without a media type, or with one that names gzip, a blob is compressed.
unfoldable pub is_compressed : Str → Bool
unfolding eqb contains_str
is_compressed media_type = eqb media_type [] || contains_str media_type (codes "gzip")

unfoldable pub reference_text : Url → Str
unfolding eqb
reference_text url =
    codes "/" ++ ((if eqb url.host [] then [] else codes "/" ++ url.host) ++ url.path)

module _ {W Reference Image Source Blob : Type 0}
    (s : LayerSource W Reference Image Source Blob) where
  unfoldable pub reference : Url → Result Reference
  unfolding reference_text
  reference url = elim (s.parse_reference url.scheme (reference_text url)) [
    | ok ref ↦ ok ref
    | err e ↦ err (wrap e (codes "parsing url failed"))
  ]

  unfoldable pub get_image_with_retries : Url → M W Image
  unfolding reference attempts
  get_image_with_retries url = do
    ref ← lift (reference url)
    wrapping (codes "creating image") (attempts max_docker_retries fatal (s.new_image ref))

  unfoldable pub image_source : Url → M W Source
  unfolding reference
  image_source url = do
    ref ← lift (reference url)
    wrapping (codes "creating image source") (s.new_image_source ref)

  unfoldable pub get_blob_with_retries : Source → BlobInfo → M W (Blob × ℤ)
  unfolding attempts
  get_blob_with_retries img_src info = attempts max_docker_retries fatal (s.get_blob img_src info)

  -- What is read of a V1 layer, and its diff id.
  unfoldable pub diff_id_of : Blob → Result Str
  diff_id_of blob = elim (s.gzip_header (s.content blob)) [
    | err e ↦ err (wrap e (codes "creating reader for V1 layer blob"))
    | ok _ ↦ elim (s.gunzip (s.content blob)) [
      | err e ↦ err (wrap e (codes "reading V1 layer blob"))
      | ok text ↦ ok (codes "sha256:" ++ s.sha256_hex text)
    ]
  ]

  unfoldable pub v1_diff_id : BlobInfo → Source → M W Str
  unfolding get_blob_with_retries diff_id_of
  v1_diff_id layer img_src = do
    (blob, size) ← wrapping (codes "fetching V1 layer blob") (get_blob_with_retries img_src layer)
    λ w. let (_, w1) = s.close_blob blob w in (diff_id_of blob, w1)

  unfoldable pub v1_diff_ids : List BlobInfo → Source → M W (List Str)
  unfolding v1_diff_id
  v1_diff_ids [] img_src = pure []
  v1_diff_ids (layer ∷ layers) img_src = do
    diff_id ← wrapping (codes "converting V1 schema failed") (v1_diff_id layer img_src)
    diff_ids ← v1_diff_ids layers img_src
    pure (diff_id ∷ diff_ids)

  -- An image whose manifest has the first schema is converted.
  unfoldable pub convert_image : Image → Url → M W Image
  unfolding is_schema1 image_source v1_diff_ids
  convert_image image url = do
    mimetype ← s.manifest_type image
    if is_schema1 mimetype
        then (do
          img_src ← image_source url
          diff_ids ← v1_diff_ids (s.layer_infos image) img_src
          s.updated_image image diff_ids)
        else pure image

  unfoldable pub manifest : Url → M W Image
  unfolding get_image_with_retries convert_image attempts
  manifest url = do
    original ← wrapping (codes "fetching image reference") (get_image_with_retries url)
    image ← convert_image original url
    wrapping (codes "fetching image configuration")
        (attempts max_docker_retries fatal (s.config_blob image))
    pure image

  unfoldable pub check_check_sum : Str → Str → Str → Result ⊤
  unfolding eqb
  check_check_sum text digest scheme =
      if s.skip_oci_checksum_validation && eqb scheme (codes "oci")
      then ok tt
      else if eqb digest (s.sha256_hex text)
      then ok tt
      else err
          (Error.new (codes "expected: " ++ (digest ++ (codes ", actual: " ++ s.sha256_hex text))))

  -- What the digests are taken of: the blob as it is read, and as it is written.
  unfoldable pub check_sums : Url → LayerInfo → Result Str → Result Str → Result ⊤
  unfolding second_part check_check_sum
  check_sums url info (err e) _ = err e
  check_sums url info (ok raw) (err e) = err e
  check_sums url info (ok raw) (ok plain) = elim (second_part info.blob_id) [
    | none ↦ err fatal
    | some hex ↦ elim (check_check_sum raw hex url.scheme) [
      | err e ↦ err (wrap e (codes "layerID digest mismatch"))
      | ok _ ↦ elim (check_check_sum plain info.diff_id url.scheme) [
        | err e ↦ err (wrap e (codes "diffID digest mismatch"))
        | ok _ ↦ ok tt
      ]
    ]
  ]

  unfoldable pub plain_content : LayerInfo → Blob → Result Str
  unfolding is_compressed
  plain_content info blob =
      if is_compressed info.media_type then s.gunzip (s.content blob) else s.content blob

  unfoldable pub write_checked : Url → LayerInfo → Blob → Str → M W ⊤
  unfolding plain_content check_sums
  write_checked url info blob file = do
    wrapping (codes "writing blob to tempfile") (s.copy file (plain_content info blob))
    lift (check_sums url info (s.content blob) (plain_content info blob))

  -- The deferred function: the blob and the file are closed, and the file is removed on
  -- failure, but not by a panic, at which the variable that it looks at holds no error.
  unfoldable pub finish : Blob → Str → ℤ → Result ⊤ → M W (Str × ℤ)
  unfolding panics
  finish blob file size r w =
      let (_, w1) = s.close_blob blob w in
      let (_, w2) = s.close_file file w1 in
      elim r [
        | ok _ ↦ (ok (file, size), w2)
        | err e ↦ if panics e then (err e, w2) else (let (_, w3) = s.remove file w2 in (err e, w3))
      ]

  unfoldable pub fill_file : Url → LayerInfo → Blob → ℤ → Str → M W (Str × ℤ)
  unfolding write_checked finish
  fill_file url info blob size file w =
      let (r, w1) = write_checked url info blob file w in finish blob file size r w1

  -- The temporary file, or the error of making it, which the reader of a compressed blob replaces by
  -- its own; if it has none, the code goes on without a file, and panics.
  unfoldable pub with_temp_file : Url → LayerInfo → Blob → ℤ → Result Str → M W (Str × ℤ)
  unfolding is_compressed fill_file
  with_temp_file url info blob size (ok file) w =
      if is_compressed info.media_type
      then elim (s.gzip_header (s.content blob)) [
        | err e ↦ (err (wrap e (codes "expected blob to be of type " ++ info.media_type)), w)
        | ok _ ↦ fill_file url info blob size file w
      ]
      else fill_file url info blob size file w
  with_temp_file url info blob size (err t) w =
      if is_compressed info.media_type
      then elim (s.gzip_header (s.content blob)) [
        | err e ↦ (err (wrap e (codes "expected blob to be of type " ++ info.media_type)), w)
        | ok _ ↦ (err fatal, w)
      ]
      else (err t, w)

  abbrev pub blob_info : LayerInfo → BlobInfo
  blob_info info = record {
    digest = info.blob_id;
    size = pos 0;
    annotations = [];
    urls = info.urls;
    media_type = [];
  }

  -- `LayerSource.Blob`: the name of a file with the uncompressed layer, and the size of the blob.
  unfoldable pub blob : Url → LayerInfo → M W (Str × ℤ)
  unfolding image_source get_blob_with_retries with_temp_file
  blob url info = do
    img_src ← image_source url
    (blob, size) ← get_blob_with_retries img_src (blob_info info)
    λ w.
        let (r, w1) = s.temp_file (codes "blob-" ++ info.blob_id) w in
        with_temp_file url info blob size r w1
