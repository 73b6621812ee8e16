-- ===== src/Base/Effect.antt =====
-- Errors as values, and calls that change the world: what a call returns, and the world after it,
-- which stays changed when the call fails.

use mathlib.Core.Path.{◌≡◌, refl}
use mathlib.Core.Bool.{Bool, true, false}
use mathlib.Core.List.{List, [], ◌∷◌, ◌++◌}
use mathlib.Core.Logic.{◌⊎◌, inl, inr}
use groot_btrfs.Base.Str.{Str, codes}

-- Go's `error`: what the operating system reports, a plain error, and an error with a message
-- wrapped round it by package `errors`. `fatal` is no error value of the code: it stands for the end
-- of the process, by a panic that nothing recovers from or by a stack that overflows.
pub data Error : Type 0 where
  not_exist exist permission fatal : Error
  new : Str → Error
  wrap : Error → Str → Error

-- `errors.Cause`
unfoldable pub cause : Error → Error
cause (wrap e m) = cause e
cause not_exist = not_exist
cause exist = exist
cause permission = permission
cause fatal = fatal
cause (new m) = new m

-- `err.Error()`
unfoldable pub message : Error → Str
message not_exist = codes "file does not exist"
message exist = codes "file already exists"
message permission = codes "permission denied"
message fatal = codes "fatal error"
message (new m) = m
message (wrap e m) = m ++ (codes ": " ++ message e)

-- `os.IsNotExist`, which looks through no wrapping.
unfoldable pub is_not_exist : Error → Bool
is_not_exist not_exist = true
is_not_exist _ = false

unfoldable pub is_exist : Error → Bool
is_exist exist = true
is_exist _ = false

pub data Result {ℓ} (A : Type ℓ) : Type ℓ where
  ok : A → Result A
  err : Error → Result A

module _ {ℓ} {A : Type ℓ} where
  abbrev pub succeeded : Result A → Bool
  succeeded (ok a) = true
  succeeded (err e) = false

  pub Result-cases : (r : Result A) → ((a : A) × (r ≡ ok a)) ⊎ ((e : Error) × (r ≡ err e))
  Result-cases (ok a) = inl (a, refl)
  Result-cases (err e) = inr (e, refl)

abbrev pub ⊤ : Type 0
⊤ = Unit

-- A call over the world `W`.
abbrev pub M : Type 0 → Type 0 → Type 0
M W A = W → Result A × W

module _ {W : Type 0} where
  abbrev pub pure : {A : Type 0} → A → M W A
  pure a w = (ok a, w)

  abbrev pub raise : {A : Type 0} → Error → M W A
  raise e w = (err e, w)

  abbrev pub lift : {A : Type 0} → Result A → M W A
  lift r w = (r, w)

  infixl 5 ◌>>=◌ ◌>>◌
  abbrev pub ◌>>=◌ : {A B : Type 0} → M W A → (A → M W B) → M W B
  ◌>>=◌ m f w = let (r, w') = m w in elim r [ ok a ↦ f a w' | err e ↦ (err e, w') ]

  abbrev pub ◌>>◌ : {A B : Type 0} → M W A → M W B → M W B
  m >> k = m >>= λ _. k

  -- The result as a value: the code looks at the error itself.
  abbrev pub attempt : {A : Type 0} → M W A → M W (Result A)
  attempt m w = let (r, w') = m w in (ok r, w')

  -- `errors.Wrap(err, message)` on the way out.
  abbrev pub wrapping : {A : Type 0} → Str → M W A → M W A
  wrapping text m w =
      let (r, w') = m w in elim r [ ok a ↦ (ok a, w') | err e ↦ (err (wrap e text), w') ]

  -- An error that is only logged.
  abbrev pub ignoring : {A : Type 0} → M W A → M W ⊤
  ignoring m w = let (r, w') = m w in (ok tt, w')

  -- `defer cleanup()`, whose own result is dropped.
  abbrev pub deferring : {A B : Type 0} → M W B → M W A → M W A
  deferring cleanup m w = let (r, w') = m w in let (r', w'') = cleanup w' in (r, w'')

  -- `for _, x := range xs { if err := f(x); err != nil { return err } }`
  unfoldable pub for_each : {A : Type 0} → (A → M W ⊤) → List A → M W ⊤
  for_each f [] w = (ok tt, w)
  for_each f (x ∷ xs) w =
      let (r, w') = f x w in elim r [ ok _ ↦ for_each f xs w' | err e ↦ (err e, w') ]
