-- ===== src/Tests/Source.antt =====
-- The source of blobs, over a network that fails some times and one file.
use groot_btrfs.Base.{ℕ, zero, suc, ◌≡◌, refl, true, false, [], Option, none, some, if◌then◌else◌}
use groot_btrfs.Base.Int.{pos}
use groot_btrfs.Base.Str.{Str, codes, eqb, drop}
use groot_btrfs.Base.Effect.{Error, ok, err, succeeded}
use groot_btrfs.Gc.Orphans.{eqb_self}
use groot_btrfs.Groot.{Url, LayerInfo}
use groot_btrfs.Fetcher.Source.{LayerSource, blob, get_blob_with_retries, blob_info}
use groot_btrfs.Fetcher.Source.Laws.{
  IsFiles, IsBlobFile, blob_checked, get_blob_with_retries_iff, some_succeeds,
}

record Net : Type 0 where
  failures : ℕ
  name : Str
  text : Str

abbrev holds : Net → Str → Option Str
holds w file = if eqb w.name file then some w.text else none

-- One byte of a compressed text is its header, and a digest is the text.
unfoldable source : LayerSource Net Unit Unit Unit Str
source = record {
  skip_oci_checksum_validation = false;
  parse_reference = λ scheme text. ok tt;
  new_image = λ reference w. (ok tt, w);
  new_image_source = λ reference w. (ok tt, w);
  config_blob = λ image w. (ok tt, w);
  manifest_type = λ image w. (ok [], w);
  layer_infos = λ image. [];
  updated_image = λ image ids w. (ok tt, w);
  get_blob = λ s info w. elim w.failures [
    | zero ↦ (ok (codes "zabc", pos 4), w)
    | suc n ↦ (err (Error.new (codes "timeout")), record w { failures = n })
  ];
  content = λ b. ok b;
  close_blob = λ b w. (ok tt, w);
  gzip_header = λ r. ok tt;
  gunzip = λ r. elim r [ ok t ↦ ok (drop 1 t) | err e ↦ err e ];
  sha256_hex = λ t. t;
  temp_file = λ name w. (ok name, record w { name = name; text = [] });
  copy = λ file r w. elim r [
    | ok t ↦ (ok tt, record w { name = file; text = t })
    | err e ↦ (err e, w)
  ];
  close_file = λ file w. (ok tt, w);
  remove = λ file w. (ok tt, record w { name = [] });
}

source-IsFiles : IsFiles holds source
unfolding source
source-IsFiles = record {
  copy_holds = λ w file r h.
      elim r
          as (λ r.
            succeeded (source.copy file r w).0 ≡ true
            → (text : Str) × (r ≡ ok text) × (holds (source.copy file r w).1 file ≡ some text)) [
              | ok t ↦ (λ k. (t, refl, rw (eqb_self file) refl))
              | err e ↦ (λ k. cc)
            ]
        h;
  close_blob_holds = λ w b. refl;
  close_file_holds = λ w file. refl;
}

abbrev url : Url
url = record { scheme = codes "docker"; host = codes "hub"; path = codes "/busybox"; text = [] }

abbrev info : LayerInfo
info = record {
  blob_id = codes "sha256:zabc";
  chain_id = [];
  diff_id = codes "abc";
  parent_chain_id = [];
  size = pos 4;
  base_directory = [];
  urls = [];
  media_type = [];
}

abbrev start : ℕ → Net
start n = record { failures = n; name = []; text = [] }

blob_run : blob source url info (start 2) ≡ (
  ok (codes "blob-sha256:zabc", pos 4),
  record { failures = 0; name = codes "blob-sha256:zabc"; text = codes "abc" },
)
unfolding blob source drop eqb
blob_run = refl

blob_checked_example :
    IsBlobFile holds source url info (codes "blob-sha256:zabc") (blob source url info (start 2)).1
unfolding blob source drop eqb
blob_checked_example =
    blob_checked holds source source-IsFiles url info (start 2) (codes "blob-sha256:zabc", pos 4)
      refl

get_blob_with_retries_iff_example :
    succeeded (get_blob_with_retries source tt (blob_info source info) (start 3)).0
    ≡ some_succeeds 3 (source.get_blob tt (blob_info source info)) (start 3)
get_blob_with_retries_iff_example = get_blob_with_retries_iff holds source tt info (start 3)
