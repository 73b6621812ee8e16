-- ===== src/Unpacker/Effects.antt =====
-- Calls that keep a path, and calls that leave one when they succeed.
use groot_btrfs.Base.{◌≡◌, Bool, true, List, [], ◌∷◌, arith, inl, inr}
use groot_btrfs.Base.Str.{Str}
use groot_btrfs.Base.Effect.{M, ⊤, Result-cases, succeeded, for_each, pure, ◌>>=◌, wrapping}

module _ {W : Type 0} (there : W → Str → Bool) (q : Str) where
  -- The path is still there after the call, whether it succeeds or fails.
  pub record Keeps {A : Type 0} (m : M W A) : Type 0 where
    pub kept : (w : W) → there w q ≡ true → there (m w).1 q ≡ true

  -- The path is there after the call, if it succeeds.
  pub record Leaves {A : Type 0} (m : M W A) : Type 0 where
    pub left : (w : W) → succeeded (m w).0 ≡ true → there (m w).1 q ≡ true

  pub Keeps-pure : {A : Type 0} (a : A) → Keeps (pure a)
  Keeps-pure a = record { kept = λ w h. h }

  pub Keeps-bind :
      {A B : Type 0} (m : M W A) (f : A → M W B)
      → Keeps m
      → ((a : A) → Keeps (f a))
      → Keeps (m >>= f)
  Keeps-bind m f h k = record {
    kept = λ w there_before. elim (Result-cases (m w).0) [
      | inl (a, fine) ↦ ground (arith, fine, h.kept w, (k a).kept (m w).1)
      | inr (x, failed) ↦ ground (arith, failed, h.kept w)
    ];
  }

  pub Keeps-wrapping : {A : Type 0} (text : Str) (m : M W A) → Keeps m → Keeps (wrapping text m)
  Keeps-wrapping text m h = record {
    kept = λ w there_before. elim (Result-cases (m w).0) [
      | inl (a, fine) ↦ ground (arith, fine, h.kept w)
      | inr (x, failed) ↦ ground (arith, failed, h.kept w)
    ];
  }

  pub Keeps-for_each :
      {A : Type 0} (f : A → M W ⊤) (xs : List A) → ((a : A) → Keeps (f a)) → Keeps (for_each f xs)
  unfolding for_each
  Keeps-for_each f [] h = record { kept = λ w there_before. there_before }
  Keeps-for_each f (x ∷ xs) h = record {
    kept = λ w there_before. elim (Result-cases (f x w).0) [
      | inl (_, fine) ↦ ground (arith, fine, (h x).kept w, (Keeps-for_each f xs h).kept (f x w).1)
      | inr (e, failed) ↦ ground (arith, failed, (h x).kept w)
    ];
  }

  pub Leaves-first :
      {A B : Type 0} (m : M W A) (f : A → M W B)
      → Leaves m
      → ((a : A) → Keeps (f a))
      → Leaves (m >>= f)
  Leaves-first m f h k = record {
    left = λ w done. elim (Result-cases (m w).0) [
      | inl (a, fine) ↦ ground (arith, fine, h.left w, (k a).kept (m w).1)
      | inr (x, failed) ↦ absurd (ground (arith, failed))
    ];
  }

  pub Leaves-last :
      {A B : Type 0} (m : M W A) (f : A → M W B) → ((a : A) → Leaves (f a)) → Leaves (m >>= f)
  Leaves-last m f k = record {
    left = λ w done. elim (Result-cases (m w).0) [
      | inl (a, fine) ↦ ground (arith, fine, (k a).left (m w).1)
      | inr (x, failed) ↦ absurd (ground (arith, failed))
    ];
  }
