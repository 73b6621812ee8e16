-- ===== src/Ids.antt =====
-- Identity mappings: `translateID` of base_image_puller/unpacker/tar.go, the arguments that
-- base_image_puller/unpacker/id_mapper.go gives to the mapping commands, and `findStoreOwner` of
-- store/manager/manager.go. Go's `int` has 64 bits here.
pub mod Translate
pub mod Owner
use groot_btrfs.Base.{Bool, true, false, ◌&&◌, List, [], ◌∷◌, ◌++◌, if◌then◌else◌}
use groot_btrfs.Base.Int.{ℤ, pos, negsuc, ltb_ℤ, leb_ℤ, eqb_ℤ, add64, sub64}
use groot_btrfs.Base.Str.{Str, codes}
use groot_btrfs.Base.Decimal.{itoa}
use groot_btrfs.Base.Effect.{M, ⊤, Result, ok, err, wrap}
use groot_btrfs.Base.Os.{Os}
use groot_btrfs.Groot.{IdMappingSpec}

unfoldable pub translate_root_id : List IdMappingSpec → ℤ
translate_root_id [] = pos 0
translate_root_id (mapping ∷ mappings) =
    if eqb_ℤ mapping.size (pos 1) then mapping.host_id else translate_root_id mappings

-- `id >= mapping.NamespaceID && id < mapping.NamespaceID+mapping.Size`
unfoldable pub in_range : ℤ → IdMappingSpec → Bool
in_range id mapping =
    leb_ℤ mapping.namespace_id id && ltb_ℤ id (add64 mapping.namespace_id mapping.size)

-- The loop of `translateID`, for an id other than 0.
unfoldable pub translate_other_id : ℤ → List IdMappingSpec → ℤ
unfolding in_range
translate_other_id id [] = id
translate_other_id id (mapping ∷ mappings) =
    let rest = translate_other_id id mappings in
    if eqb_ℤ mapping.size (pos 1)
    then rest
    else if in_range id mapping
    then sub64 (add64 mapping.host_id id) (pos 1)
    else rest

unfoldable pub translate_id : ℤ → List IdMappingSpec → ℤ
unfolding translate_root_id translate_other_id
translate_id id mappings =
    if eqb_ℤ id (pos 0) then translate_root_id mappings else translate_other_id id mappings

unfoldable pub id_mapping_to_args : IdMappingSpec → List Str
unfolding itoa
id_mapping_to_args mapping =
    itoa mapping.namespace_id ∷ itoa mapping.host_id ∷ itoa mapping.size ∷ []

unfoldable pub id_mappings_to_args : List IdMappingSpec → List Str
unfolding id_mapping_to_args
id_mappings_to_args [] = []
id_mappings_to_args (mapping ∷ mappings) =
    id_mapping_to_args mapping ++ id_mappings_to_args mappings

-- `CommandIDMapper.execute`: `command pid ns host size ns host size …`
unfoldable pub execute : {W : Type 0} → Os W → Str → ℤ → List IdMappingSpec → M W ⊤
unfolding id_mappings_to_args
execute os command pid mappings w =
    let ((output, ended), w1) = os.run command (itoa pid ∷ id_mappings_to_args mappings) w in
    elim ended [
      | ok _ ↦ (ok tt, w1)
      | err e ↦ (err (wrap e (command ++ (codes ", " ++ output))), w1)
    ]

-- One of the two loops of `findStoreOwner`; `id` starts as `os.Getuid()` or `os.Getgid()`, and
-- becomes -1 at a mapping that is not the root's.
unfoldable pub find_owner : ℤ → List IdMappingSpec → ℤ
find_owner id [] = id
find_owner id (mapping ∷ mappings) =
    if eqb_ℤ mapping.size (pos 1) && eqb_ℤ mapping.namespace_id (pos 0)
    then mapping.host_id
    else find_owner (negsuc 0) mappings

unfoldable pub find_store_owner : ℤ → ℤ → List IdMappingSpec → List IdMappingSpec → ℤ × ℤ
unfolding find_owner
find_store_owner getuid getgid uid_mappings gid_mappings =
    (find_owner getuid uid_mappings, find_owner getgid gid_mappings)
