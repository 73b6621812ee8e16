-- ===== src/Unpacker/Keep.antt =====
-- Which paths the unpacker's steps keep, and which they leave.
use groot_btrfs.Base.{ℕ, Bool, ◌++◌, arith, inl, inr, Bool-cases}
use groot_btrfs.Base.Int.{ℤ, pos, eqb_ℤ}
use groot_btrfs.Base.Str.{Str, codes}
use groot_btrfs.Base.Effect.{M, ⊤, pure, ◌>>=◌, ◌>>◌, wrapping}
use groot_btrfs.Puller.{UnpackSpec}
use groot_btrfs.Unpacker.{
  TarUnpacker, TarHeader, quoted, own, make_directory, create_directory, open_regular, copy_content,
  create_regular_file,
}
use groot_btrfs.Unpacker.Effects.{Keeps, Leaves, Keeps-pure, Keeps-bind, Keeps-wrapping}

module _ {W Stream Content File : Type 0} (there : W → Str → Bool)
    (u : TarUnpacker W Stream Content File) where
  -- The system calls that remove nothing take no path away, and what is made is there.
  pub record IsFileSystem : Type 0 where
    pub stat_keeps : (q p : Str) → Keeps there q (u.os.stat p)
    pub lstat_keeps : (q p : Str) → Keeps there q (u.os.lstat p)
    pub read_dir_keeps : (q p : Str) → Keeps there q (u.os.read_dir p)
    pub mkdir_keeps : (q p : Str) (mode : ℕ) → Keeps there q (u.os.mkdir p mode)
    pub chown_keeps : (q p : Str) (uid gid : ℤ) → Keeps there q (u.os.chown p uid gid)
    pub lchown_keeps : (q p : Str) (uid gid : ℤ) → Keeps there q (u.lchown p uid gid)
    pub chmod_keeps : (q p : Str) (mode : ℕ) → Keeps there q (u.os.chmod p mode)
    pub modtime_keeps : (q p : Str) (time : ℤ) → Keeps there q (u.change_mod_time p time)
    pub symlink_keeps : (q p to : Str) → Keeps there q (u.make_symlink to p)
    pub link_keeps : (q p to : Str) → Keeps there q (u.make_link to p)
    pub open_keeps : (q p : Str) (mode : ℕ) → Keeps there q (u.open_file p mode)
    pub copy_keeps :
        (q : Str) (file : File) (content : Content) → Keeps there q (u.copy file content)
    pub close_keeps : (q : Str) (file : File) → Keeps there q (u.close file)
    pub stat_leaves : (p : Str) → Leaves there p (u.os.stat p)
    pub mkdir_leaves : (p : Str) (mode : ℕ) → Leaves there p (u.os.mkdir p mode)
    pub open_leaves : (p : Str) (mode : ℕ) → Leaves there p (u.open_file p mode)

  module _ (F : IsFileSystem) (q : Str) where
    pub own-Keeps :
        (chown : Str → ℤ → ℤ → M W ⊤) (what path : Str) (header : TarHeader)
        (spec : UnpackSpec Stream)
        → ((uid gid : ℤ) → Keeps there q (chown path uid gid))
        → Keeps there q (own u chown what path header spec)
    unfolding own
    own-Keeps chown what path header spec h = elim (Bool-cases (eqb_ℤ u.os.getuid (pos 0))) [
      | inl root ↦ rw root (Keeps-wrapping there q _ _ (h _ _))
      | inr plain ↦ rw plain (Keeps-pure there q tt)
    ]

    make_directory-Keeps :
        (path : Str) (header : TarHeader) → Keeps there q (make_directory u path header)
    unfolding make_directory
    make_directory-Keeps path header = record {
      kept = λ w h. ground (
        arith,
        (F.stat_keeps q path).kept w,
        (F.mkdir_keeps q path header.mode).kept (u.os.stat path w).1,
      );
    }

    -- What follows the making of a directory.
    pub rest_of_directory-Keeps :
        (path : Str) (header : TarHeader) (spec : UnpackSpec Stream)
        → Keeps there q (do
          own u u.os.chown (codes "directory ") path header spec
          wrapping (codes "chmoding directory " ++ quoted path) (u.os.chmod path header.mode)
          wrapping
              (codes "setting the modtime for directory "
                ++ (quoted path ++ codes ": %!s(MISSING)"))
              (u.change_mod_time path header.mod_time))
    rest_of_directory-Keeps path header spec =
        Keeps-bind there q _ _
          (own-Keeps u.os.chown (codes "directory ") path header spec (F.chown_keeps q path))
          (λ _.
            Keeps-bind there q _ _
              (Keeps-wrapping there q (codes "chmoding directory " ++ quoted path) _
                (F.chmod_keeps q path header.mode))
              (λ _.
                Keeps-wrapping there q
                  (codes "setting the modtime for directory "
                    ++ (quoted path ++ codes ": %!s(MISSING)"))
                  _ (F.modtime_keeps q path header.mod_time)))

    pub create_directory-Keeps :
        (path : Str) (header : TarHeader) (spec : UnpackSpec Stream)
        → Keeps there q (create_directory u path header spec)
    unfolding create_directory
    create_directory-Keeps path header spec =
        Keeps-bind there q _ _ (make_directory-Keeps path header)
          (λ _. rest_of_directory-Keeps path header spec)

    open_regular-Keeps :
        (path : Str) (header : TarHeader) → Keeps there q (open_regular u path header)
    unfolding open_regular
    open_regular-Keeps path header = record {
      kept = λ w h. ground (arith, (F.open_keeps q path header.mode).kept w);
    }

    copy_content-Keeps :
        (path : Str) (file : File) (content : Content)
        → Keeps there q (copy_content u path file content)
    unfolding copy_content
    copy_content-Keeps path file content = record {
      kept = λ w h. ground (
        arith,
        (F.copy_keeps q file content).kept w,
        (F.close_keeps q file).kept (u.copy file content w).1,
      );
    }

    -- What follows the opening of a regular file.
    pub rest_of_file-Keeps :
        (path : Str) (header : TarHeader) (content : Content) (spec : UnpackSpec Stream)
        (file : File)
        → Keeps there q (do
          file_size ← copy_content u path file content
          own u u.os.chown (codes "file ") path header spec
          wrapping (codes "chmoding file " ++ quoted path) (u.os.chmod path header.mode)
          wrapping
              (codes "setting the modtime for file " ++ quoted path)
              (u.change_mod_time path header.mod_time)
          pure file_size)
    rest_of_file-Keeps path header content spec file =
        Keeps-bind there q _ _ (copy_content-Keeps path file content) (λ size.
          Keeps-bind there q _ _
            (own-Keeps u.os.chown (codes "file ") path header spec (F.chown_keeps q path))
            (λ _.
              Keeps-bind there q _ _
                (Keeps-wrapping there q (codes "chmoding file " ++ quoted path) _
                  (F.chmod_keeps q path header.mode))
                (λ _.
                  Keeps-bind there q _ _
                    (Keeps-wrapping there q (codes "setting the modtime for file " ++ quoted path) _
                      (F.modtime_keeps q path header.mod_time))
                    (λ _. Keeps-pure there q size))))

    pub create_regular_file-Keeps :
        (path : Str) (header : TarHeader) (content : Content) (spec : UnpackSpec Stream)
        → Keeps there q (create_regular_file u path header content spec)
    unfolding create_regular_file
    create_regular_file-Keeps path header content spec =
        Keeps-bind there q _ _ (open_regular-Keeps path header)
          (rest_of_file-Keeps path header content spec)
