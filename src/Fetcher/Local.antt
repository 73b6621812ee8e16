-- ===== src/Fetcher/Local.antt =====
-- fetcher/tar_fetcher/tar_fetcher.go, a base image in one local file, and
-- fetcher/layer_fetcher/blob_reader.go, the reader of a blob's file. The hash of package
-- `crypto/sha256`, in hexadecimal, and opened files are parameters.
use groot_btrfs.Base.{[], ◌∷◌, ◌++◌, if◌then◌else◌}
use groot_btrfs.Base.Int.{ℤ, pos}
use groot_btrfs.Base.Str.{Str, codes}
use groot_btrfs.Base.Decimal.{itoa}
use groot_btrfs.Base.Os.{Os}
use groot_btrfs.Base.Effect.{M, ⊤, Error, pure, raise, ◌>>=◌, ◌>>◌, wrapping}
use groot_btrfs.Groot.{Url, OciImage, LayerInfo, BaseImageInfo}

-- `mod_time` is the time that `os.Stat` reports, in nanoseconds.
pub record TarFetcher (W File : Type 0) : Type 0 where
  pub os : Os W
  pub open_file : Str → M W File
  pub mod_time : Str → M W ℤ
  pub hex_sha256 : Str → Str

-- The zero value of the configuration of an image.
abbrev pub no_config : OciImage
no_config = record { volumes = []; env = [] }

module _ {W File : Type 0} (t : TarFetcher W File) where
  unfoldable pub validate_base_image : Str → M W ⊤
  validate_base_image path = do
    stat ← t.os.stat path
    if stat.is_dir
        then raise (Error.new (codes "directory provided instead of a tar file"))
        else pure tt

  unfoldable pub stream_tar : Url → LayerInfo → M W (File × ℤ)
  unfolding validate_base_image
  stream_tar url info = do
    wrapping (codes "local image not found in `" ++ (url.text ++ codes "`")) (t.os.stat url.text)
    wrapping (codes "invalid base image") (validate_base_image url.text)
    stream ← wrapping (codes "reading local image") (t.open_file url.text)
    pure (stream, pos 0)

  unfoldable pub generate_chain_id : Str → ℤ → Str
  generate_chain_id path timestamp = t.hex_sha256 path ++ (codes "-" ++ itoa timestamp)

  unfoldable pub tar_image_info : Url → M W BaseImageInfo
  unfolding generate_chain_id
  tar_image_info url = do
    timestamp ← wrapping (codes "fetching image timestamp") (t.mod_time url.text)
    pure (record {
      layer_infos =
          record {
            blob_id = url.text;
            chain_id = generate_chain_id url.text timestamp;
            diff_id = [];
            parent_chain_id = [];
            size = pos 0;
            base_directory = [];
            urls = [];
            media_type = [];
          }
          ∷ [];
      config = no_config;
    })

-- The reader of a blob's file, which is removed when the reader is closed.
pub record BlobReader (File : Type 0) : Type 0 where
  pub reader : File
  pub file_path : Str

unfoldable pub new_blob_reader : {W File : Type 0} → (Str → M W File) → Str → M W (BlobReader File)
new_blob_reader open_blob blob_path = do
  reader ← wrapping (codes "failed to open blob") (open_blob blob_path)
  pure (record { reader = reader; file_path = blob_path })

unfoldable pub close_blob_reader : {W File : Type 0} → Os W → BlobReader File → M W ⊤
close_blob_reader os d = os.remove d.file_path
