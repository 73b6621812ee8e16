-- ===== src/Tests/Puller.antt =====
-- Pulling two layers into the store in memory.
use mathlib.Core.List.{reverse}
use groot_btrfs.Base.{◌≡◌, refl, false, not, ◌||◌, List, [], ◌∷◌, true, suc, arith, none}
use groot_btrfs.Base.Int.{ℤ, pos, eqb_ℤ, ltb_ℤ, ◌+ℤ◌, add64}
use groot_btrfs.Base.Decimal.{itoa}
use groot_btrfs.Gc.{insert_key, delete_key}
use groot_btrfs.Base.Str.{replace_first, size, Str, codes, contains, has_prefix, contains_str}
use groot_btrfs.Base.Effect.{succeeded}
use groot_btrfs.Groot.{LayerInfo, BaseImageInfo, BaseImageSpec}
use groot_btrfs.Groot.Creator.{chain_ids}
use groot_btrfs.Puller.{pull, quota_exceeded}
use groot_btrfs.Puller.BaseDirectory.{base_directories}
use groot_btrfs.Puller.BaseDirectory.Endless.{base_directories_endless}
use groot_btrfs.Puller.Store.{StaysIn}
use groot_btrfs.Base.Str.Laws.{slash_free}
use groot_btrfs.Puller.Layers.{ValidLayers, Closed, Builds}
use groot_btrfs.Puller.Closed.{pull-Builds}
use groot_btrfs.Puller.Quota.{total_size, quota_exceeded_iff}
use groot_btrfs.Tests.Memory.{
  World, moved, store, puller, pull_view, no_image, puller-IsDriver, puller-IsAside,
  puller-IsLocking,
}

abbrev layer : Str → Str → Str → LayerInfo
layer chain parent text = record {
  blob_id = chain;
  chain_id = chain;
  diff_id = chain;
  parent_chain_id = parent;
  size = pos 1000;
  base_directory = [];
  urls = [];
  media_type = text;
}

abbrev pub layers : List LayerInfo
layers =
    layer (codes "base") [] (codes "text") ∷ layer (codes "top") (codes "base") (codes "text") ∷ []

abbrev pub two_layers : BaseImageInfo
two_layers = record { layer_infos = layers; config = no_image }

-- The upper layer is corrupt.
abbrev bad_top : BaseImageInfo
bad_top = record {
  layer_infos =
      layer (codes "base") [] (codes "text") ∷ layer (codes "top") (codes "base") (codes "!") ∷ [];
  config = no_image;
}

abbrev pub spec : ℤ → BaseImageSpec
spec limit = record {
  disk_limit = limit;
  exclude_base_image_from_quota = false;
  base_image_src = record { scheme = []; host = []; path = []; text = [] };
  uid_mappings = [];
  gid_mappings = [];
  owner_uid = pos 0;
  owner_gid = pos 0;
}

abbrev empty : World
empty = record { volumes = []; images = []; registry = []; held = 0 }

pull_run : (pull puller two_layers (spec (pos 0)) empty).1.volumes ≡ codes "top" ∷ codes "base" ∷ []
unfolding pull puller contains has_prefix moved replace_first insert_key delete_key itoa
pull_run = refl

over_quota : succeeded (pull puller two_layers (spec (pos 1999)) empty).0 ≡ false
unfolding pull puller add64
over_quota = refl

-- A layer that cannot be unpacked leaves its temporary volume behind: what is destroyed is the
-- volume of the chain id, which is not there.
leftover :
    (pull puller bad_top (spec (pos 0)) empty).1.volumes
    ≡ codes "top-incomplete-1500-42" ∷ codes "base" ∷ []
unfolding pull puller contains has_prefix moved replace_first insert_key delete_key itoa
leftover = refl

-- A base directory with no slash has no directories.
pub flat-StaysIn : (path d : Str) → slash_free d ≡ true → StaysIn path d
flat-StaysIn path d h ds e = absurd (cc (base_directories_endless (suc (size d)) d h, e))

layers-Valid : ValidLayers store (reverse layers)
unfolding contains_str contains chain_ids
layers-Valid = (
  record {
    name = record { no_slash = refl; full = refl; no_dot = refl; no_dots = refl };
    outside = refl;
    finished = refl;
  },
  refl,
  flat-StaysIn store [] refl,
  (
    record {
      name = record { no_slash = refl; full = refl; no_dot = refl; no_dots = refl };
      outside = refl;
      finished = refl;
    },
    refl,
    flat-StaysIn store [] refl,
    tt,
  ),
)

empty-Closed : Closed (pull_view empty) (reverse layers)
unfolding contains
empty-Closed = ground arith

pull-Builds_example :
    Builds store
      (reverse layers)
      (succeeded (pull puller two_layers (spec (pos 0)) empty).0)
      (pull_view empty)
      (pull_view (pull puller two_layers (spec (pos 0)) empty).1)
pull-Builds_example =
    pull-Builds pull_view store puller puller-IsDriver puller-IsAside puller-IsLocking two_layers
      (spec (pos 0)) empty layers-Valid empty-Closed

quota_exceeded_iff_example :
    succeeded (quota_exceeded layers (spec (pos 1999)))
    ≡ (false || (eqb_ℤ (pos 1999) (pos 0) || not (ltb_ℤ (pos 1999) (total_size layers))))
unfolding ◌+ℤ◌
quota_exceeded_iff_example = quota_exceeded_iff layers (spec (pos 1999)) (omega arith) (omega arith)

base_directories_endless_example : base_directories 1000 (codes "home") ≡ none
base_directories_endless_example = base_directories_endless 1000 (codes "home") refl
