-- ===== src/Groot/Clean/Skip.antt =====
-- The threshold of `Clean`.
use groot_btrfs.Base.{◌≡◌, Bool, true, false, List, arith, inl, inr, if◌then◌else◌}
use groot_btrfs.Base.Int.{ℤ, pos, ltb_ℤ}
use groot_btrfs.Base.Str.{Str}
use groot_btrfs.Base.Effect.{Result, ok, err, Result-cases}
use groot_btrfs.Groot.Creator.{global_lock_key}
use groot_btrfs.Groot.Clean.{CleanerParts, clean_store, clean}

-- The measured usage does not reach the threshold, or there is none.
abbrev pub is_below : Result ℤ → ℤ → Bool
is_below (ok used) threshold = ltb_ℤ used threshold
is_below (err e) threshold = true

module _ {W : Type 0} (c : CleanerParts W) where
  clean_store_lem : (preserve : List Str) (w : W) → (clean_store c preserve w).0.0 ≡ false
  unfolding clean_store
  clean_store_lem preserve w = elim (Result-cases (c.locksmith.lock global_lock_key w).0) [
    | inl (file, locked) ↦ ground (arith, locked)
    | inr (e, failed) ↦ ground (arith, failed)
  ]

  -- `Clean` says that it did nothing exactly if the threshold is negative, or is positive and the
  -- usage of the store cannot be measured or is below it; then at most the usage was measured.
  pub clean_skipped :
      (threshold : ℤ) (preserve : List Str) (w : W)
      → ((clean c threshold preserve w).0.0 ≡ (
          if ltb_ℤ (pos 0) threshold
          then is_below (c.store_measurer.usage w).0 threshold
          else ltb_ℤ threshold (pos 0)))
        × ((clean c threshold preserve w).0.0 ≡ true
            → (clean c threshold preserve w).1
              ≡ (if ltb_ℤ (pos 0) threshold then (c.store_measurer.usage w).1 else w))
  unfolding clean
  clean_skipped threshold preserve w =
      let w1 = (c.store_measurer.usage w).1 in
      elim (Result-cases (c.store_measurer.usage w).0) [
        | inl (used, measured) ↦
            ground (arith, measured, clean_store_lem preserve w, clean_store_lem preserve w1)
        | inr (e, failed) ↦ ground (arith, failed, clean_store_lem preserve w)
      ]
