-- ===== src/Groot/Creator/Parts.antt =====
-- The creator over the image cloner, the dependency manager and the locksmith of the program, which
-- fill what it relies on.
use groot_btrfs.Base.{
  ◌≡◌, ◌≢◌, refl, ap, ◌∙◌, fun_ext, Bool, true, ◌&&◌, List, ℕ, suc, ◌-◌, Option, none, some, arith,
  inl, inr, Bool-cases, if◌then◌else◌,
}
use groot_btrfs.Base.Str.{Str}
use groot_btrfs.Base.FilePath.Laws.{IsName, is_name, is_name-IsName, IsName-is_name}
use groot_btrfs.Base.Effect.{M, ok, err, Result-cases, succeeded}
use groot_btrfs.Groot.{File, Locksmith, ImageSpec}
use groot_btrfs.Groot.Creator.{Creator}
use groot_btrfs.Groot.Creator.View.{View, IsLawful}
use groot_btrfs.Store.Cloner as Cloner
use groot_btrfs.Store.Cloner.{ImageCloner, image_path}
use groot_btrfs.Store.Cloner.Laws.{IsFileSystem, create_mounts, destroy_there}
use groot_btrfs.Store.Dependencies as Dependencies
use groot_btrfs.Store.Dependencies.{DependencyManager, file_path}
use groot_btrfs.Store.Dependencies.Laws.{IsFileStore, IsCodec}

-- A call beside the count of the locks that the creator holds.
abbrev pub beside : {W A : Type 0} → M W A → M (W × ℕ) A
beside m w = let (r, w') = m w.0 in (r, (w', w.1))

module _ {W : Type 0} (b : ImageCloner W) (s : DependencyManager W) (locks : Locksmith W)
    (c : Creator W) where
  -- The creator with these parts. The count of its locks is no part of the program: it only records
  -- which locks were got and let go.
  unfoldable pub counted : Creator (W × ℕ)
  counted = record {
    cleaner = record {
      clean = λ threshold ids w. let (r, w') = c.cleaner.clean threshold ids w.0 in (r, (w', w.1));
    };
    image_cloner = record {
      exists = λ id. beside (Cloner.exists b id);
      create = λ spec. beside (Cloner.create b spec);
      destroy = λ id. beside (Cloner.destroy b id);
      stats = λ id. beside (Cloner.stats b id);
    };
    base_image_puller = record {
      fetch_base_image_info = λ spec. beside (c.base_image_puller.fetch_base_image_info spec);
      pull = λ info spec. beside (c.base_image_puller.pull info spec);
    };
    locksmith = record {
      lock = λ key w.
          let (r, w') = locks.lock key w.0 in (r, (w', if succeeded r then suc w.1 else w.1));
      unlock = λ file w. let (r, w') = locks.unlock file w.0 in (r, (w', w.1 - 1));
    };
    dependency_manager = record {
      register = λ id ids. beside (Dependencies.register s id ids);
      deregister = λ id. beside (Dependencies.deregister s id);
    };
  }

  module _ (there : W → Str → Bool) (file : W → Str → Option Str) where
    -- A look at a path, and the release of a lock, leave the files alone; a file that is written is no
    -- image, and makes or takes away no other path.
    pub record IsApart : Type 0 where
      pub stat_file : (w : W) (p : Str) → file (b.os.stat p w).1 ≡ file w
      pub write_there :
          (w : W) (p text q : Str) (mode : ℕ)
          → q ≢ p
          → there (s.os.write_file p text mode w).1 q ≡ there w q
      pub unlock_there : (w : W) (f : File) → there (locks.unlock f w).1 ≡ there w
      pub unlock_file : (w : W) (f : File) → file (locks.unlock f w).1 ≡ file w
      pub apart : (v id : Str) → IsName v → image_path b v ≢ file_path s id

    abbrev decoded : Option Str → Option (List Str)
    decoded none = none
    decoded (some text) = elim (s.decode text) [ ok ids ↦ some ids | err _ ↦ none ]

    -- An image is a plain name whose path is there; the dependencies of a reference are what its file
    -- says.
    abbrev view_of : (Str → Bool) → (Str → Option Str) → ℕ → View
    view_of paths texts held = record {
      image = λ v. is_name v && paths (image_path b v);
      deps = λ id. decoded (texts (file_path s id));
      held = held;
    }

    abbrev pub store_view : W × ℕ → View
    store_view w = view_of (there w.0) (file w.0) w.1

    module _ (F : IsFileSystem there b) (S : IsFileStore file s) (codec : IsCodec s)
        (T : IsApart) where
      exists_world :
          (id : Str) (w : W) → (Cloner.exists b id w).1 ≡ (b.os.stat (image_path b id) w).1
      unfolding Cloner.exists
      exists_world id w = ground arith

      exists_found :
          (id : Str) (found : Bool) (w : W)
          → (Cloner.exists b id w).0 ≡ ok found
          → found ≡ there w (image_path b id)
      unfolding Cloner.exists
      exists_found id found w e = ground (arith, F.stat_there w (image_path b id))

      exists_view :
          (w : W × ℕ) (id : Str) → store_view ((Cloner.exists b id w.0).1, w.1) ≡ store_view w
      exists_view w id =
          let p = image_path b id in
          ap (λ t. store_view (t, w.1)) (exists_world id w.0)
          ∙ ap (λ t. view_of t (file (b.os.stat p w.0).1) w.1) (F.stat_same w.0 p)
          ∙ ap (λ f. view_of (there w.0) f w.1) (T.stat_file w.0 p)

      registered :
          (id : Str) (ids : List Str) (w : W)
          → succeeded (Dependencies.register s id ids w).0 ≡ true
          → decoded (file (Dependencies.register s id ids w).1 (file_path s id)) ≡ some ids
      unfolding Dependencies.register
      registered id ids w e = elim (Result-cases (s.marshal ids)) [
        | inr (x, failed) ↦ absurd (ground (arith, failed))
        | inl (text, written) ↦
            let path = file_path s id in
            let fine : succeeded (s.os.write_file path text 0o666 w).0 ≡ true =
              ground (arith, written) in
            ground (arith, written, S.write_same w path text 0o666 fine, codec ids text written)
      ]

      register_keeps :
          (id : Str) (ids : List Str) (v : Str) (w : W)
          → IsName v
          → there (Dependencies.register s id ids w).1 (image_path b v) ≡ there w (image_path b v)
      unfolding Dependencies.register
      register_keeps id ids v w n = elim (Result-cases (s.marshal ids)) [
        | inr (x, failed) ↦ ground (arith, failed)
        | inl (text, written) ↦ ground (
          arith,
          written,
          T.write_there w (file_path s id) text (image_path b v) 0o666 (T.apart v id n),
        )
      ]

      register_image :
          (id : Str) (ids : List Str) (w : W) (v : Str)
          → (is_name v && there (Dependencies.register s id ids w).1 (image_path b v))
            ≡ (is_name v && there w (image_path b v))
      register_image id ids w v = elim (Bool-cases (is_name v)) [
        | inl named ↦ ap (λ h. is_name v && h) (register_keeps id ids v w (is_name-IsName v named))
        | inr odd ↦ rw odd refl
      ]

      created :
          (w : W) (spec : ImageSpec)
          → IsName spec.id
          → succeeded (Cloner.create b spec w).0 ≡ true
          → (is_name spec.id && there (Cloner.create b spec w).1 (image_path b spec.id)) ≡ true
      created w spec n e = elim (Result-cases (Cloner.create b spec w).0) [
        | inr (x, failed) ↦ absurd (cc (ap succeeded failed, e))
        | inl (out, done) ↦
            ground (arith, IsName-is_name spec.id n, (create_mounts there b F spec w out done).0)
      ]

      -- The program's cloner, dependency manager and locksmith fill what the creator relies on.
      pub counted-IsLawful : IsLawful store_view counted
      unfolding counted
      counted-IsLawful = record {
        image_name = λ w id h. is_name-IsName id (ground (arith, h));
        exists_view = exists_view;
        exists_image =
            λ w id found n e. exists_found id found w.0 e ∙ ground (arith, IsName-is_name id n);
        fetch_held = λ w spec. refl;
        clean_held = λ w threshold ids. refl;
        pull_held = λ w info spec. refl;
        create_image = λ w spec n e. created w.0 spec n e;
        create_held = λ w spec. refl;
        destroy_image = λ w id n e. ground (arith, (destroy_there there b F id w.0).1 e);
        destroy_held = λ w id. refl;
        register_deps = λ w id ids e. registered id ids w.0 e;
        register_image = λ w id ids. fun_ext (register_image id ids w.0);
        register_held = λ w id ids. refl;
        lock_held = λ w key. refl;
        unlock_image = λ w f. ap (λ t v. is_name v && t (image_path b v)) (T.unlock_there w.0 f);
        unlock_deps = λ w f. ap (λ t id. decoded (t (file_path s id))) (T.unlock_file w.0 f);
        unlock_held = λ w f. refl;
      }
