-- ===== src/Store/Measurer/Laws.antt =====
-- What the usage of the cache adds up.
use groot_btrfs.Base.{ℕ, ◌+◌, ◌^◌, ◌<◌, ◌≡◌, List, [], ◌∷◌, arith, inl, inr, All}
use groot_btrfs.Base.Int.{ℤ, pos, negsuc, pos_part, add64, ◌≤ℤ◌}
use groot_btrfs.Base.Str.{Str}
use groot_btrfs.Base.Effect.{ok, err, Result-cases}
use groot_btrfs.Store.Measurer.{Measurer, cache_usage_onto, cache_usage}

abbrev pub total : List ℤ → ℕ
total [] = 0
total (n ∷ ns) = pos_part n + total ns

add64_pos : (a b : ℕ) → a + b < 2 ^ 63 → add64 (pos a) (pos b) ≡ pos (a + b)
unfolding add64
add64_pos a b h = ground arith

module _ {W : Type 0} (m : Measurer W) where
  -- The sizes that can be read, one volume after the other.
  abbrev pub sizes_read : List Str → W → List ℤ
  sizes_read [] w = []
  sizes_read (volume ∷ volumes) w =
      let rest = sizes_read volumes (m.volume_size volume w).1 in
      elim (m.volume_size volume w).0 [ ok n ↦ n ∷ rest | err _ ↦ rest ]

  cache_usage_onto_lem :
      (volumes : List Str) (size : ℕ) (w : W)
      → All (λ n. pos 0 ≤ℤ n) (sizes_read volumes w)
      → size + total (sizes_read volumes w) < 2 ^ 63
      → (cache_usage_onto m (pos size) volumes w).0 ≡ pos (size + total (sizes_read volumes w))
  unfolding cache_usage_onto
  cache_usage_onto_lem [] size w h k = ground arith
  cache_usage_onto_lem (volume ∷ volumes) size w h k =
      let w1 = (m.volume_size volume w).1 in
      elim (Result-cases (m.volume_size volume w).0) [
        | inr (x, failed) ↦ ground (arith, failed, cache_usage_onto_lem volumes size w1)
        | inl (negsuc n, read) ↦ absurd (ground (arith, read, h))
        | inl (pos n, read) ↦
            ground (arith, read, h, add64_pos size n, cache_usage_onto_lem volumes (size + n) w1)
      ]

  -- Where no size is negative and their sum is below 2^63, the usage of the cache is the sum of the
  -- sizes that can be read.
  pub cache_usage_lem :
      (volumes : List Str) (w : W)
      → All (λ n. pos 0 ≤ℤ n) (sizes_read volumes w)
      → total (sizes_read volumes w) < 2 ^ 63
      → (cache_usage m volumes w).0 ≡ pos (total (sizes_read volumes w))
  unfolding cache_usage
  cache_usage_lem volumes w h k = ground (arith, cache_usage_onto_lem volumes 0 w h)
