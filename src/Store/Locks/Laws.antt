-- ===== src/Store/Locks/Laws.antt =====
-- `Lock` and `Unlock` over the system calls.
use groot_btrfs.Base.{
  ◌≡◌, ◌≢◌, refl, ◌∙◌, ap, true, [], ◌∷◌, arith, inl, inr, Option, none, some, subst,
}
use groot_btrfs.Base.Str.{Str}
use groot_btrfs.Base.Str.Laws.{slash_free}
use groot_btrfs.Base.Effect.{ok, Result-cases, succeeded}
use groot_btrfs.Groot.{File}
use groot_btrfs.Store.Locks.{
  LockType, unlocked, FileSystem, without_slashes, lock_path, lock, unlock,
}

-- A path and the kind of lock on it.
abbrev pub Lock : Type 0
Lock = Str × LockType

-- `path w f` is the path that the file `f` is open at, and `held w f` the lock on it.
pub record IsLocking {W : Type 0} (path : W → File → Option Str) (held : W → File → Option LockType)
    (l : FileSystem W) : Type 0 where
  pub open_path :
      (w : W) (p : Str) (f : File)
      → (l.files.open_file p w).0 ≡ ok f
      → path (l.files.open_file p w).1 f ≡ some p
  pub flock_path : (w : W) (f : File) (t : LockType) → path (l.files.flock f t w).1 ≡ path w
  pub flock_held :
      (w : W) (f : File) (t : LockType)
      → succeeded (l.files.flock f t w).0 ≡ true
      → t ≢ unlocked
      → held (l.files.flock f t w).1 f ≡ some t
  pub close_held : (w : W) (f : File) → held (l.files.close f w).1 f ≡ none

without_slashes-slash_free : (key : Str) → slash_free (without_slashes key) ≡ true
unfolding without_slashes
without_slashes-slash_free [] = refl
without_slashes-slash_free (c ∷ key) = ground (arith, without_slashes-slash_free key)

without_slashes_same : (key : Str) → slash_free key ≡ true → without_slashes key ≡ key
unfolding without_slashes
without_slashes_same [] h = refl
without_slashes_same (c ∷ key) h = ground (arith, without_slashes_same key)

module _ {W : Type 0} (path : W → File → Option Str) (held : W → File → Option LockType)
    (l : FileSystem W) (L : IsLocking path held l) where
  -- A successful `Lock` returns a file that is open at the path of the key's slash-free part and
  -- holds a lock of the locksmith's kind; the same file is unlocked after `Unlock`, whatever fails.
  pub lock_then_unlock :
      (key : Str) (f : File) (w : W)
      → l.lock_type ≢ unlocked
      → (lock l key w).0 ≡ ok f
      → (path (lock l key w).1 f ≡ some (lock_path l (without_slashes key)))
        × (slash_free (without_slashes key) ≡ true)
        × (held (lock l key w).1 f ≡ some l.lock_type)
        × ((t : W) → held (unlock l f t).1 f ≡ none)
  unfolding lock unlock
  lock_then_unlock key f w kind e =
      let p = lock_path l (without_slashes key) in
      let w1 = (l.files.open_file p w).1 in
      elim (Result-cases (l.files.open_file p w).0) [
        | inr (x, failed) ↦ absurd (ground (arith, failed))
        | inl (g, opened) ↦ elim (Result-cases (l.files.flock g l.lock_type w1).0) [
          | inr (x, failed) ↦ absurd (ground (arith, opened, failed))
          | inl (_, locked) ↦
              let same : g ≡ f = ground (arith, opened, locked) in
              let ends : (lock l key w).1 ≡ (l.files.flock g l.lock_type w1).1 =
                ground (arith, opened, locked) in
              (
                ap (λ t. path t f) ends
                    ∙ ap (λ s. s f) (L.flock_path w1 g l.lock_type)
                    ∙ L.open_path w p f (opened ∙ ap ok same),
                without_slashes-slash_free key,
                ap (λ t. held t f) ends
                    ∙ subst (λ x. held (l.files.flock g l.lock_type w1).1 x ≡ some l.lock_type) same
                        (L.flock_held w1 g l.lock_type (ap succeeded locked) kind),
                λ t. ground (arith, L.close_held (l.files.flock f unlocked t).1 f),
              )
        ]
      ]
