-- ===== src/Tests/Other.antt =====
-- The mappings, the owners and the configuration at concrete inputs.
use groot_btrfs.Base.{◌≡◌, refl, true, false, not, ◌&&◌, List, [], ◌∷◌, ◌↔◌, arith, if◌then◌else◌}
use groot_btrfs.Base.Int.{ℤ, pos, negsuc, signed, bits, add64, sub64, ltb_ℤ, ◌≤ℤ◌, ◌+ℤ◌}
use groot_btrfs.Base.Str.{Str, codes, eqb}
use groot_btrfs.Base.Effect.{Error, ok, err, succeeded}
use groot_btrfs.Store.Measurer.{Measurer, cache_usage, usage}
use groot_btrfs.Store.Measurer.Laws.{cache_usage_lem}
use groot_btrfs.Groot.{IdMappingSpec}
use groot_btrfs.Groot.Creator.{parse_owner}
use groot_btrfs.Ids.{translate_id, in_range, find_store_owner}
use groot_btrfs.Ids.Translate.{IsMapping, mapped, translate_id_iff}
use groot_btrfs.Ids.Owner.{find_store_owner-eq}
use groot_btrfs.Config.{zero_config, CreateFlags, create_config}
use groot_btrfs.Config.Laws.{asked, create_config_lem}

abbrev mapping : ℤ → ℤ → ℤ → IdMappingSpec
mapping host namespace size = record { host_id = host; namespace_id = namespace; size = size }

abbrev shifted : IdMappingSpec
shifted = mapping (pos 100000) (pos 5) (pos 10)

-- The range from 5 maps 7 to 100002, but the translation gives 100006.
shifted_run : translate_id (pos 7) (shifted ∷ []) ≡ pos 100006
unfolding translate_id add64 sub64
shifted_run = refl

shifted-IsMapping : IsMapping shifted
shifted-IsMapping = record {
  host_low = omega arith;
  host_high = omega arith;
  namespace_low = omega arith;
  namespace_high = omega arith;
  size_low = omega arith;
  size_high = omega arith;
}

translate_id_iff_example :
    (translate_id (pos 7) (mapping (pos 1000) (pos 0) (pos 1) ∷ shifted ∷ [])
      ≡ mapped (pos 7) shifted)
    ↔ (pos 5 ≡ pos 1)
unfolding ◌+ℤ◌ in_range add64
translate_id_iff_example =
    translate_id_iff (pos 7) (mapping (pos 1000) (pos 0) (pos 1) ∷ []) shifted [] refl
      shifted-IsMapping (omega arith) refl (omega arith) (omega arith)

abbrev root_and_rest : List IdMappingSpec
root_and_rest = mapping (pos 1000) (pos 0) (pos 1) ∷ mapping (pos 100000) (pos 1) (pos 65536) ∷ []

find_store_owner-eq_example : find_store_owner (pos 0) (pos 0) root_and_rest [] ≡ (
  (parse_owner (pos 0) (pos 0) root_and_rest []).0,
  (parse_owner (pos 0) (pos 0) root_and_rest []).1,
)
find_store_owner-eq_example = find_store_owner-eq (pos 0) (pos 0) root_and_rest []

abbrev flags : CreateFlags
flags = record {
  insecure_registry = codes "r:5000" ∷ [];
  disk_limit_size_bytes = (pos 512, true);
  exclude_image_from_quota = (true, false);
  skip_layer_validation = (true, true);
  threshold_bytes = (negsuc 0, false);
  with_clean = true;
  without_clean = true;
  with_mount = false;
  without_mount = true;
}

create_config_lem_example :
    (create_config flags zero_config ≡ ok (asked flags zero_config)
      → (asked flags zero_config ≡ asked flags zero_config) × (pos 0 ≤ℤ pos 512) × (pos 0 ≤ℤ pos 0))
    × (succeeded (create_config flags zero_config)
        ≡ (not (ltb_ℤ (pos 512) (pos 0)) && not (ltb_ℤ (pos 0) (pos 0))))
create_config_lem_example = create_config_lem flags zero_config (asked flags zero_config)

-- Three volumes, the second of which has no size to read.
abbrev measured : Measurer Unit
measured = record {
  store_path = codes "/s";
  volume_size = λ v w.
      if eqb v (codes "b") then (err (Error.new (codes "no metadata")), w) else (ok (pos 700), w);
  statfs = λ path w. (ok (record { bsize = pos 4096; blocks = 100; bfree = 40 }), w);
}

abbrev three : List Str
three = codes "a" ∷ codes "b" ∷ codes "c" ∷ []

cache_usage_lem_example : (cache_usage measured three tt).0 ≡ pos 1400
unfolding eqb
cache_usage_lem_example = cache_usage_lem measured three tt (ground arith) (ground arith)

usage_run : (usage measured tt).0 ≡ ok (pos 245760)
unfolding usage signed bits
usage_run = refl
