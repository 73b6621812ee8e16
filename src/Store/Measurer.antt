-- ===== src/Store/Measurer.antt =====
-- store/measurer_linux.go: the usage of the store and of its cache. The system call statfs is a
-- parameter.
pub mod Laws
use groot_btrfs.Base.{ℕ, ◌+◌, ◌*◌, ◌-◌, ◌%◌, ◌^◌, List, [], ◌∷◌, ◌++◌}
use groot_btrfs.Base.Int.{ℤ, pos, add64, bits, signed}
use groot_btrfs.Base.Str.{Str, codes}
use groot_btrfs.Base.Effect.{M, Error, Result, ok, err, wrap, pure, ◌>>=◌, wrapping}

-- The fields of `syscall.Statfs_t` that are read: 64 bits each.
pub record Statfs : Type 0 where
  pub bsize : ℤ
  pub blocks : ℕ
  pub bfree : ℕ

pub record Measurer (W : Type 0) : Type 0 where
  pub store_path : Str
  pub volume_size : Str → M W ℤ
  pub statfs : Str → M W Statfs

-- The total bytes and the used bytes, in 64 bits.
unfoldable pub sizes_of : Statfs → ℤ × ℤ
sizes_of stats =
    let free = stats.bfree * bits stats.bsize % 2 ^ 64 in
    let total = stats.blocks * bits stats.bsize % 2 ^ 64 in
    (signed total, signed ((total + (2 ^ 64 - free)) % 2 ^ 64))

module _ {W : Type 0} (m : Measurer W) where
  -- The argument of `pathStats` is not used.
  unfoldable pub path_stats : Str → M W (ℤ × ℤ)
  unfolding sizes_of
  path_stats path = do
    stats ← wrapping (codes "Invalid path " ++ m.store_path) (m.statfs m.store_path)
    pure (sizes_of stats)

  unfoldable pub usage : M W ℤ
  unfolding path_stats
  usage = do
    sizes ← wrapping (codes "Invalid path " ++ m.store_path) (path_stats m.store_path)
    pure sizes.1

  -- The loop of `CacheUsage`: a volume whose size cannot be read is passed over.
  unfoldable pub cache_usage_onto : ℤ → List Str → W → ℤ × W
  cache_usage_onto size [] w = (size, w)
  cache_usage_onto size (volume ∷ volumes) w =
      let (r, w1) = m.volume_size volume w in
      cache_usage_onto (elim r [ ok n ↦ add64 size n | err _ ↦ size ]) volumes w1

  unfoldable pub cache_usage : List Str → W → ℤ × W
  unfolding cache_usage_onto
  cache_usage volumes w = cache_usage_onto (pos 0) volumes w
