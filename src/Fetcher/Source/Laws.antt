-- ===== src/Fetcher/Source/Laws.antt =====
-- What the file of a blob holds, and when attempts succeed.
use groot_btrfs.Base.{
  ℕ, zero, suc, ◌≡◌, refl, sym, ap, ◌∙◌, Bool, true, false, ◌&&◌, ◌||◌, [], arith, inl, inr, Option,
  none, some, Option-cases, Bool-cases, subst, subst₂, ◌++◌,
}
use groot_btrfs.Base.Int.{ℤ}
use groot_btrfs.Base.Str.{Str, codes, eqb}
use groot_btrfs.Base.Effect.{M, Error, Result, ok, err, fatal, Result-cases, succeeded}
use groot_btrfs.Groot.{Url, LayerInfo}
use groot_btrfs.Fetcher.{second_part}
use groot_btrfs.Fetcher.Source.{
  LayerSource, attempts, is_compressed, image_source, get_blob_with_retries, check_check_sum,
  check_sums, plain_content, write_checked, finish, fill_file, with_temp_file, blob_info, blob,
}

-- Whether one of the next `n` calls succeeds, each in the world that the one before leaves.
abbrev pub some_succeeds : {W A : Type 0} → ℕ → M W A → W → Bool
some_succeeds zero call w = false
some_succeeds (suc n) call w = succeeded (call w).0 || some_succeeds n call (call w).1

-- Attempts succeed exactly if one of the calls does that they allow.
attempts_iff :
    {W A : Type 0} (n : ℕ) (e : Error) (call : M W A) (w : W)
    → succeeded (attempts n e call w).0 ≡ some_succeeds n call w
unfolding attempts
attempts_iff zero e call w = refl
attempts_iff (suc n) e call w = elim (Result-cases (call w).0) [
  | inl (a, fine) ↦ ground (arith, fine)
  | inr (x, failed) ↦ ground (arith, failed, attempts_iff n x call (call w).1)
]

module _ {W Reference Image Source Blob : Type 0} (holds : W → Str → Option Str)
    (s : LayerSource W Reference Image Source Blob) where
  -- Temporary files: a copy that succeeds has read all and written it; closing changes no file.
  pub record IsFiles : Type 0 where
    pub copy_holds :
        (w : W) (file : Str) (r : Result Str)
        → succeeded (s.copy file r w).0 ≡ true
        → (text : Str) × (r ≡ ok text) × (holds (s.copy file r w).1 file ≡ some text)
    pub close_blob_holds : (w : W) (b : Blob) → holds (s.close_blob b w).1 ≡ holds w
    pub close_file_holds : (w : W) (file : Str) → holds (s.close_file file w).1 ≡ holds w

  -- Digests are not looked at.
  abbrev pub unchecked : Url → Bool
  unchecked url = s.skip_oci_checksum_validation && eqb url.scheme (codes "oci")

  -- The text has the digest.
  abbrev pub has_digest : Str → Str → Bool
  has_digest text digest = eqb digest (s.sha256_hex text)

  -- The digest of a blob, behind the colon.
  abbrev pub blob_digest : LayerInfo → Str
  blob_digest info = elim (second_part info.blob_id) [ none ↦ [] | some hex ↦ hex ]

  check_sums_ok :
      (url : Url) (info : LayerInfo) (raw plain : Result Str)
      → check_sums s url info raw plain ≡ ok tt
      → (text : Str) × (read : Str) × (raw ≡ ok read)
        × (plain ≡ ok text)
        × ((unchecked url || (has_digest read (blob_digest info) && has_digest text info.diff_id))
            ≡ true)
  unfolding check_sums check_check_sum
  check_sums_ok url info (err e) plain h = absurd (ground (arith, h))
  check_sums_ok url info (ok read) (err e) h = absurd (ground (arith, h))
  check_sums_ok url info (ok read) (ok text) h = elim (Option-cases (second_part info.blob_id)) [
    | inl bare ↦ absurd (ground (arith, bare, h))
    | inr (hex, split) ↦ (text, read, refl, refl, ground (arith, split, h))
  ]

  -- The file holds the uncompressed content of a blob, and both have their digests.
  pub record IsBlobFile (url : Url) (info : LayerInfo) (file : Str) (w : W) : Type 0 where
    pub source : Blob
    pub raw : Str
    pub plain : Str
    pub read : s.content source ≡ ok raw
    pub uncompressed : plain_content s info source ≡ ok plain
    pub held : holds w file ≡ some plain
    pub checked :
        (unchecked url || (has_digest raw (blob_digest info) && has_digest plain info.diff_id))
        ≡ true

  module _ (F : IsFiles) (url : Url) (info : LayerInfo) where
    write_checked_ok :
        (b : Blob) (file : Str) (w : W)
        → (write_checked s url info b file w).0 ≡ ok tt
        → IsBlobFile url info file (write_checked s url info b file w).1
    unfolding write_checked
    write_checked_ok b file w h =
        let from = plain_content s info b in
        let (r, w1) = s.copy file from w in
        elim (Result-cases r) [
          | inr (x, failed) ↦ absurd (ground (arith, failed, h))
          | inl (_, copied) ↦
              let (plain, first, there) = F.copy_holds w file from (ap succeeded copied) in
              let sums : check_sums s url info (s.content b) from ≡ ok tt =
                ground (arith, copied, h) in
              let (text, raw, second, third, good) =
                check_sums_ok url info (s.content b) from sums in
              let same : plain ≡ text = ground (arith, first, third) in
              let e : (write_checked s url info b file w).1 ≡ w1 = ground (arith, copied) in
              record {
                source = b;
                raw = raw;
                plain = text;
                read = second;
                uncompressed = third;
                held = cc (ap (λ v. holds v file) e, there, same);
                checked = good;
              }
        ]

    moved :
        (file : Str) (w w1 : W)
        → holds w1 ≡ holds w
        → IsBlobFile url info file w
        → IsBlobFile url info file w1
    moved file w w1 same b = record {
      source = b.source;
      raw = b.raw;
      plain = b.plain;
      read = b.read;
      uncompressed = b.uncompressed;
      held = cc (same, b.held);
      checked = b.checked;
    }

    fill_file_ok :
        (b : Blob) (size : ℤ) (file : Str) (w : W) (out : Str × ℤ)
        → (fill_file s url info b size file w).0 ≡ ok out
        → IsBlobFile url info out.0 (fill_file s url info b size file w).1
    unfolding fill_file finish
    fill_file_ok b size file w out h =
        let (r, w1) = write_checked s url info b file w in
        let w2 = (s.close_blob b w1).1 in
        let w3 = (s.close_file file w2).1 in
        elim (Result-cases r) [
          | inr (x, failed) ↦ absurd (ground (arith, failed, h))
          | inl (_, fine) ↦
              let e : (fill_file s url info b size file w).1 ≡ w3 = ground (arith, fine) in
              let name : file ≡ out.0 = ground (arith, fine, h) in
              let kept : holds w3 ≡ holds w1 =
                F.close_file_holds w2 file ∙ F.close_blob_holds w1 b in
              subst₂ (IsBlobFile url info) name (sym e)
                (moved file w1 w3 kept (write_checked_ok b file w fine))
        ]

    with_temp_file_ok :
        (b : Blob) (size : ℤ) (t : Result Str) (w : W) (out : Str × ℤ)
        → (with_temp_file s url info b size t w).0 ≡ ok out
        → IsBlobFile url info out.0 (with_temp_file s url info b size t w).1
    unfolding with_temp_file
    with_temp_file_ok b size (err x) w out h = elim (Bool-cases (is_compressed info.media_type)) [
      | inr plain ↦ absurd (ground (arith, plain, h))
      | inl packed ↦ elim (Result-cases (s.gzip_header (s.content b))) [
        | inl (_, fine) ↦ absurd (ground (arith, packed, fine, h))
        | inr (y, failed) ↦ absurd (ground (arith, packed, failed, h))
      ]
    ]
    with_temp_file_ok b size (ok file) w out h =
        let filled = fill_file_ok b size file w out in
        let P = λ (o : Result (Str × ℤ) × W). o.0 ≡ ok out → IsBlobFile url info out.0 o.1 in
        elim (Bool-cases (is_compressed info.media_type)) [
          | inr plain ↦
              let e : with_temp_file s url info b size (ok file) w
                  ≡ fill_file s url info b size file w =
                ground (arith, plain) in
              subst P (sym e) filled h
          | inl packed ↦ elim (Result-cases (s.gzip_header (s.content b))) [
            | inl (_, fine) ↦
                let e : with_temp_file s url info b size (ok file) w
                    ≡ fill_file s url info b size file w =
                  ground (arith, packed, fine) in
                subst P (sym e) filled h
            | inr (y, failed) ↦ absurd (ground (arith, packed, failed, h))
          ]
        ]

    -- After a successful `Blob`, the file that it names holds the uncompressed content of a blob; and
    -- unless the digests of a directory's blobs are not to be looked at, the blob has the digest of
    -- its id, and the content of the file that of the layer.
    pub blob_checked :
        (w : W) (out : Str × ℤ)
        → (blob s url info w).0 ≡ ok out
        → IsBlobFile url info out.0 (blob s url info w).1
    unfolding blob
    blob_checked w out h =
        let (r1, w1) = image_source s url w in
        elim (Result-cases r1) [
          | inr (x, failed) ↦ absurd (ground (arith, failed, h))
          | inl (source, found) ↦
              let (r2, w2) = get_blob_with_retries s source (blob_info s info) w1 in
              elim (Result-cases r2) [
                | inr (x, failed) ↦ absurd (ground (arith, found, failed, h))
                | inl ((b, size), got) ↦
                    let (t, w3) = s.temp_file (codes "blob-" ++ info.blob_id) w2 in
                    let e : blob s url info w ≡ with_temp_file s url info b size t w3 =
                      ground (arith, found, got) in
                    subst
                      (λ (o : Result (Str × ℤ) × W). o.0 ≡ ok out → IsBlobFile url info out.0 o.1)
                      (sym e) (with_temp_file_ok b size t w3 out) h
              ]
        ]

  -- A blob is got exactly if one of three calls for it succeeds, each in the world that the one
  -- before leaves.
  pub get_blob_with_retries_iff :
      (source : Source) (info : LayerInfo) (w : W)
      → succeeded (get_blob_with_retries s source (blob_info s info) w).0
        ≡ some_succeeds 3 (s.get_blob source (blob_info s info)) w
  unfolding get_blob_with_retries
  get_blob_with_retries_iff source info w =
      attempts_iff 3 fatal (s.get_blob source (blob_info s info)) w
