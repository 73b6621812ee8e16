-- ===== src/Ids/Owner.antt =====
-- The owner of the store and the owner of an image.
use groot_btrfs.Base.{
  ◌≡◌, refl, Bool, true, false, ◌&&◌, ◌||◌, List, [], ◌∷◌, arith, any, if◌then◌else◌,
}
use groot_btrfs.Base.Int.{ℤ, pos, negsuc, eqb_ℤ}
use groot_btrfs.Groot.{IdMappingSpec}
use groot_btrfs.Groot.Creator.{owner_of, parse_owner}
use groot_btrfs.Ids.{find_owner, find_store_owner}

-- A mapping of the root id alone.
abbrev pub is_root_mapping : IdMappingSpec → Bool
is_root_mapping mapping = eqb_ℤ mapping.size (pos 1) && eqb_ℤ mapping.namespace_id (pos 0)

abbrev pub is_empty : List IdMappingSpec → Bool
is_empty [] = true
is_empty (_ ∷ _) = false

owner_of_root :
    (i j : ℤ) (mappings : List IdMappingSpec)
    → any is_root_mapping mappings ≡ true
    → owner_of i mappings ≡ owner_of j mappings
unfolding owner_of
owner_of_root i j [] h = cc
owner_of_root i j (mapping ∷ mappings) h = ground (arith, owner_of_root i j mappings)

find_owner-eq :
    (id : ℤ) (mappings : List IdMappingSpec)
    → find_owner id mappings ≡ (
        if is_empty mappings || any is_root_mapping mappings
        then owner_of id mappings
        else negsuc 0)
unfolding find_owner owner_of
find_owner-eq id [] = refl
find_owner-eq id (mapping ∷ []) = ground arith
find_owner-eq id (mapping ∷ next ∷ mappings) = ground (
  arith,
  find_owner-eq (negsuc 0) (next ∷ mappings),
  owner_of_root id (negsuc 0) (next ∷ mappings),
)

-- `InitStore` and `Create` find the same owner exactly where the mappings are empty or map the root;
-- with other mappings the store's owner is -1, that is, left as it is.
pub find_store_owner-eq :
    (getuid getgid : ℤ) (uids gids : List IdMappingSpec)
    → find_store_owner getuid getgid uids gids ≡ (
      if is_empty uids || any is_root_mapping uids
          then (parse_owner getuid getgid uids gids).0
          else negsuc 0,
      if is_empty gids || any is_root_mapping gids
          then (parse_owner getuid getgid uids gids).1
          else negsuc 0,
    )
unfolding find_store_owner parse_owner
find_store_owner-eq getuid getgid uids gids =
    cc (find_owner-eq getuid uids, find_owner-eq getgid gids)
