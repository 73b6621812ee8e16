-- ===== src/Tests/VolumeMeta.antt =====
-- The metadata of a volume in files in memory.
use groot_btrfs.Base.{◌≡◌, refl, true, false, [], ◌∷◌, ◌++◌, zero, suc}
use groot_btrfs.Base.Int.{ℤ, pos, negsuc}
use groot_btrfs.Base.Str.{Str, codes, contains_str}
use groot_btrfs.Base.Effect.{Error, Result, ok, err, succeeded}
use groot_btrfs.Puller.{VolumeMeta}
use groot_btrfs.Gc.{gc_prefix}
use groot_btrfs.Store.VolumeMeta.{MetaFiles, write_volume_meta, volume_size}
use groot_btrfs.Store.VolumeMeta.Laws.{IsFileStore, IsCodec, volume_size_marked}
use groot_btrfs.Tests.Dependencies.{Texts, text_at}
use groot_btrfs.Tests.Namespacer.{namespacer, namespacer-IsFileStore}

abbrev encode : VolumeMeta → Str
encode m = elim m.size [ pos n ↦ 0 ∷ n ∷ [] | negsuc n ↦ 1 ∷ n ∷ [] ]

abbrev decode : Str → Result VolumeMeta
decode (zero ∷ n ∷ []) = ok (record { size = pos n })
decode (suc zero ∷ n ∷ []) = ok (record { size = negsuc n })
decode _ = err (Error.new (codes "invalid metadata"))

abbrev meta_files : MetaFiles Texts
meta_files = record {
  store_path = codes "/s";
  os = namespacer.os;
  encode = encode;
  decode = decode;
}

meta_files-IsFileStore : IsFileStore text_at meta_files
meta_files-IsFileStore = record {
  write_same = namespacer-IsFileStore.write_same;
  read_some = namespacer-IsFileStore.read_some;
}

codec_of : (n : ℤ) → decode (encode (record { size = n })) ≡ ok (record { size = n })
codec_of (pos n) = refl
codec_of (negsuc n) = refl

meta_files-IsCodec : IsCodec meta_files
meta_files-IsCodec m = codec_of m.size

abbrev metadata : VolumeMeta
metadata = record { size = pos 1024 }

plain_id : contains_str (codes "base") (codes "gc.") ≡ false
unfolding contains_str
plain_id = refl

write_run : succeeded (write_volume_meta meta_files (codes "base") metadata []).0 ≡ true
unfolding write_volume_meta namespacer
write_run = refl

volume_size_marked_example :
    ((volume_size meta_files
        (codes "base")
        (write_volume_meta meta_files (codes "base") metadata []).1).0
      ≡ ok (pos 1024))
    × ((volume_size meta_files
          (gc_prefix ++ codes "base")
          (write_volume_meta meta_files (codes "base") metadata []).1).0
        ≡ ok (pos 1024))
volume_size_marked_example =
    volume_size_marked text_at meta_files meta_files-IsFileStore meta_files-IsCodec (codes "base")
      metadata [] plain_id write_run
