-- ===== src/Unpacker/Present.antt =====
-- What is there after unpacking.
use groot_btrfs.Base.{
  ◌≡◌, sym, Bool, not, ◌&&◌, true, false, List, [], ◌∷◌, ◌++◌, arith, All, subst,
}
use groot_btrfs.Base.Int.{ℤ, pos, add64}
use groot_btrfs.Base.Str.{Str, codes, contains_str}
use groot_btrfs.Base.Effect.{M, ⊤, succeeded, pure, ◌>>◌, lift, wrapping}
use groot_btrfs.Puller.{UnpackSpec}
use groot_btrfs.Unpacker.{
  TarUnpacker, TarHeader, Entry, Typeflag, make_directory, create_directory, create_link,
  open_regular, create_regular_file, handle_typed, handle_entry, entry_path, unpack_entry,
  unpack_entries, safe_mkdir, change_root, unpack, output_of,
}
use groot_btrfs.Unpacker.Effects.{Keeps, Leaves, Keeps-pure, Keeps-bind, Leaves-first, Leaves-last}
use groot_btrfs.Unpacker.Keep.{
  IsFileSystem, create_directory-Keeps, create_regular_file-Keeps, rest_of_file-Keeps,
  rest_of_directory-Keeps,
}

abbrev pub is_symlink : Typeflag → Bool
is_symlink Typeflag.symlink = true
is_symlink _ = false

-- Directories and regular files.
abbrev pub is_plain : Typeflag → Bool
is_plain Typeflag.directory = true
is_plain Typeflag.regular = true
is_plain _ = false

-- An entry that only adds: it is no whiteout, and no symbolic link, which removes what is in its
-- place. What lies at a path in a removed one is not told by the paths where there are symbolic links.
abbrev pub only_adds : {Content : Type 0} → Entry Content → Bool
only_adds e =
    not (contains_str e.header.name (codes ".wh..wh..opq"))
    && not (contains_str e.header.name (codes ".wh."))
    && not (is_symlink e.header.typeflag)

module _ {W Stream Content File : Type 0} (there : W → Str → Bool)
    (u : TarUnpacker W Stream Content File) where
  module _ (F : IsFileSystem there u) (spec : UnpackSpec Stream) where
    handle_typed-Keeps :
        (q path : Str) (t : Typeflag) (e : Entry Content)
        → is_symlink t ≡ false
        → Keeps there q (handle_typed u t path e spec)
    unfolding handle_typed create_link
    handle_typed-Keeps q path Typeflag.block e h = Keeps-pure there q (pos 0)
    handle_typed-Keeps q path Typeflag.char e h = Keeps-pure there q (pos 0)
    handle_typed-Keeps q path Typeflag.other e h = Keeps-pure there q (pos 0)
    handle_typed-Keeps q path Typeflag.link e h =
        Keeps-bind there q _ _ (F.link_keeps q path e.header.linkname)
          (λ _. Keeps-pure there q (pos 0))
    handle_typed-Keeps q path Typeflag.symlink e h = absurd (cc h)
    handle_typed-Keeps q path Typeflag.directory e h =
        Keeps-bind there q _ _ (create_directory-Keeps there u F q path e.header spec)
          (λ _. Keeps-pure there q (pos 0))
    handle_typed-Keeps q path Typeflag.regular e h =
        create_regular_file-Keeps there u F q path e.header e.content spec

    unpack_entry-Keeps :
        (q : Str) (e : Entry Content) → only_adds e ≡ true → Keeps there q (unpack_entry u spec e)
    unfolding unpack_entry handle_entry
    unpack_entry-Keeps q e adds =
        let no_opq : contains_str e.header.name (codes ".wh..wh..opq") ≡ false = ground arith in
        let no_wh : contains_str e.header.name (codes ".wh.") ≡ false = ground arith in
        rw (no_opq, no_wh)
          (handle_typed-Keeps q (entry_path u spec e) e.header.typeflag e (ground arith))

    unpack_entries-Keeps :
        (q : Str) (total : ℤ) (es : List (Entry Content))
        → All (λ e. only_adds e ≡ true) es
        → Keeps there q (unpack_entries u spec total es)
    unfolding unpack_entries
    unpack_entries-Keeps q total [] all = Keeps-pure there q total
    unpack_entries-Keeps q total (e ∷ es) all =
        Keeps-bind there q _ _ (unpack_entry-Keeps q e all.0)
          (λ size. unpack_entries-Keeps q (add64 total size) es all.1)

    make_directory-Leaves :
        (path : Str) (header : TarHeader) → Leaves there path (make_directory u path header)
    unfolding make_directory
    make_directory-Leaves path header = record {
      left = λ w done. ground (
        arith,
        (F.stat_leaves path).left w,
        (F.mkdir_leaves path header.mode).left (u.os.stat path w).1,
      );
    }

    create_directory-Leaves :
        (path : Str) (header : TarHeader) → Leaves there path (create_directory u path header spec)
    unfolding create_directory
    create_directory-Leaves path header =
        Leaves-first there path _ _ (make_directory-Leaves path header)
          (λ _. rest_of_directory-Keeps there u F path path header spec)

    open_regular-Leaves :
        (path : Str) (header : TarHeader) → Leaves there path (open_regular u path header)
    unfolding open_regular
    open_regular-Leaves path header = record {
      left = λ w done. ground (arith, (F.open_leaves path header.mode).left w);
    }

    create_regular_file-Leaves :
        (path : Str) (header : TarHeader) (content : Content)
        → Leaves there path (create_regular_file u path header content spec)
    unfolding create_regular_file
    create_regular_file-Leaves path header content =
        Leaves-first there path _ _ (open_regular-Leaves path header)
          (rest_of_file-Keeps there u F path path header content spec)

    handle_typed-Leaves :
        (path : Str) (t : Typeflag) (e : Entry Content)
        → is_plain t ≡ true
        → Leaves there path (handle_typed u t path e spec)
    unfolding handle_typed
    handle_typed-Leaves path Typeflag.directory e h =
        Leaves-first there path _ _ (create_directory-Leaves path e.header)
          (λ _. Keeps-pure there path (pos 0))
    handle_typed-Leaves path Typeflag.regular e h =
        create_regular_file-Leaves path e.header e.content
    handle_typed-Leaves path Typeflag.block e h = absurd (cc (h))
    handle_typed-Leaves path Typeflag.char e h = absurd (cc (h))
    handle_typed-Leaves path Typeflag.other e h = absurd (cc (h))
    handle_typed-Leaves path Typeflag.link e h = absurd (cc (h))
    handle_typed-Leaves path Typeflag.symlink e h = absurd (cc (h))

    unpack_entry-Leaves :
        (e : Entry Content)
        → contains_str e.header.name (codes ".wh..wh..opq") ≡ false
        → contains_str e.header.name (codes ".wh.") ≡ false
        → is_plain e.header.typeflag ≡ true
        → Leaves there (entry_path u spec e) (unpack_entry u spec e)
    unfolding unpack_entry handle_entry
    unpack_entry-Leaves e no_opq no_wh plain =
        rw (no_opq, no_wh) (handle_typed-Leaves (entry_path u spec e) e.header.typeflag e plain)

    unpack_entries-Leaves :
        (total : ℤ) (before : List (Entry Content)) (e : Entry Content)
        (after : List (Entry Content))
        → contains_str e.header.name (codes ".wh..wh..opq") ≡ false
        → contains_str e.header.name (codes ".wh.") ≡ false
        → is_plain e.header.typeflag ≡ true
        → All (λ a. only_adds a ≡ true) after
        → Leaves there (entry_path u spec e) (unpack_entries u spec total (before ++ (e ∷ after)))
    unfolding unpack_entries
    unpack_entries-Leaves total [] e after no_opq no_wh plain spared =
        Leaves-first there (entry_path u spec e) _ _ (unpack_entry-Leaves e no_opq no_wh plain)
          (λ size. unpack_entries-Keeps (entry_path u spec e) (add64 total size) after spared)
    unpack_entries-Leaves total (b ∷ before) e after no_opq no_wh plain spared =
        Leaves-last there (entry_path u spec e) (unpack_entry u spec b)
          (λ size. unpack_entries u spec (add64 total size) (before ++ (e ∷ after)))
          (λ size.
            unpack_entries-Leaves (add64 total size) before e after no_opq no_wh plain spared)

    -- After a successful `unpack`, a directory or a regular file of the archive, whose name has no
    -- whiteout mark, is there, where no later entry is a whiteout or a symbolic link.
    pub unpack_there :
        (w : W) (before : List (Entry Content)) (e : Entry Content) (after : List (Entry Content))
        → u.entries spec.stream ≡ before ++ (e ∷ after)
        → contains_str e.header.name (codes ".wh..wh..opq") ≡ false
        → contains_str e.header.name (codes ".wh.") ≡ false
        → is_plain e.header.typeflag ≡ true
        → All (λ a. only_adds a ≡ true) after
        → succeeded (unpack u spec w).0 ≡ true
        → there (unpack u spec w).1 (entry_path u spec e) ≡ true
    unfolding unpack
    unpack_there w before e after entries no_opq no_wh plain spared done =
        let q = entry_path u spec e in
        let all = u.entries spec.stream in
        let loop : Leaves there q (unpack_entries u spec (pos 0) all) =
          subst (λ es. Leaves there q (unpack_entries u spec (pos 0) es)) (sym entries)
            (unpack_entries-Leaves (pos 0) before e after no_opq no_wh plain spared) in
        let ending : M W ⊤ = lift (u.ending spec.stream) in
        let finish = λ (total : ℤ).
          Keeps-bind there q ending (λ _. pure (output_of total)) (record { kept = λ v h. h })
            (λ _. Keeps-pure there q (output_of total)) in
        (Leaves-last there q (safe_mkdir u spec.target_path 0o755) _ (λ _.
            Leaves-last there q
              (wrapping (codes "failed to chroot") (change_root u spec.target_path)) _
              (λ _.
                Leaves-first there q (unpack_entries u spec (pos 0) all)
                  (λ total. ending >> pure (output_of total)) loop finish))).left
          w done
