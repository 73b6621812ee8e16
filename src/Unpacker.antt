-- ===== src/Unpacker.antt =====
-- base_image_puller/unpacker/tar.go: unpacking the layers of a base image, as tar archives.
--
-- Package `archive/tar` is a parameter: it reads a stream as entries, each with its header and its
-- content, and ends with EOF or with an error.
pub mod Effects
pub mod Keep
pub mod Present
pub mod Reexec
use groot_btrfs.Base.{ℕ, Bool, true, false, List, [], ◌∷◌, ◌++◌, if◌then◌else◌}
use groot_btrfs.Base.Int.{ℤ, pos, eqb_ℤ, add64}
use groot_btrfs.Base.Str.{Str, codes, contains_str, replace_first}
use groot_btrfs.Base.Decimal.{itoa}
use groot_btrfs.Base.FilePath.{join, dir}
use groot_btrfs.Base.Os.{Os}
use groot_btrfs.Base.Effect.{
  M, ⊤, Error, Result, ok, err, wrap, for_each, pure, raise, lift, ◌>>=◌, ◌>>◌, wrapping,
}
use groot_btrfs.Groot.{IdMappingSpec}
use groot_btrfs.Puller.{UnpackSpec, UnpackOutput}
use groot_btrfs.Ids.{translate_id}

-- `tarHeader.Typeflag`
pub data Typeflag : Type 0 where
  block char link symlink directory regular other : Typeflag

pub record TarHeader : Type 0 where
  pub name : Str
  pub typeflag : Typeflag
  pub mode : ℕ
  pub uid : ℤ
  pub gid : ℤ
  pub linkname : Str
  pub mod_time : ℤ

pub record Entry (Content : Type 0) : Type 0 where
  pub header : TarHeader
  pub content : Content

-- What the unpacker asks of its surroundings besides the calls of `os`. `open_file` creates or
-- empties a file, `copy` writes a content to it, and `change_mod_time` is the system call.
pub record TarUnpacker (W Stream Content File : Type 0) : Type 0 where
  pub os : Os W
  pub entries : Stream → List (Entry Content)
  pub ending : Stream → Result ⊤
  pub chroot : Str → M W ⊤
  pub chdir : Str → M W ⊤
  pub make_symlink : Str → Str → M W ⊤
  pub make_link : Str → Str → M W ⊤
  pub lchown : Str → ℤ → ℤ → M W ⊤
  pub open_file : Str → ℕ → M W File
  pub copy : File → Content → M W ℤ
  pub close : File → M W ⊤
  pub change_mod_time : Str → ℤ → M W ⊤

-- No opaque whiteouts are passed on: they are dealt with where they are met.
abbrev pub output_of : ℤ → UnpackOutput
output_of total = record { bytes_written = total; opaque_whiteouts = [] }

-- `os.IsPermission`
unfoldable pub is_permission : Error → Bool
is_permission Error.permission = true
is_permission _ = false

unfoldable pub quoted : Str → Str
quoted path = codes "`" ++ (path ++ codes "`")

unfoldable pub chowning_message : Str → ℤ → ℤ → Str → Str
unfolding quoted
chowning_message what uid gid path =
    codes "chowning "
    ++ (what ++ (itoa uid ++ (codes ":" ++ (itoa gid ++ (codes " " ++ quoted path)))))

-- The error of a directory or a file that cannot be made.
unfoldable pub creating_error : Str → Str → TarHeader → Error → Error
unfolding is_permission quoted dir
creating_error what path header e =
    if is_permission e
    then Error.new (
        codes "'/"
        ++ (dir header.name
            ++ codes
                "' does not give write permission to its owner. This image can only be unpacked using uid and gid mappings, or by running as root."))
    else wrap e (codes "creating " ++ (what ++ quoted path))

module _ {W Stream Content File : Type 0} (u : TarUnpacker W Stream Content File) where
  unfoldable pub remove_whiteout : Str → M W ⊤
  unfolding replace_first
  remove_whiteout path =
      wrapping (codes "deleting whiteout file")
        (u.os.remove_all (replace_first path (codes ".wh.") []))

  unfoldable pub clean_whiteout_dir : Str → M W ⊤
  unfolding for_each join
  clean_whiteout_dir path = do
    contents ← wrapping (codes "reading whiteout directory") (u.os.read_dir path)
    for_each
        (λ name.
          wrapping (codes "cleaning up whiteout directory")
            (u.os.remove_all (join (path ∷ name ∷ []))))
        contents

  -- Only root changes owners.
  unfoldable pub own : (Str → ℤ → ℤ → M W ⊤) → Str → Str → TarHeader → UnpackSpec Stream → M W ⊤
  unfolding translate_id chowning_message
  own chown what path header spec =
      let uid = translate_id header.uid spec.uid_mappings in
      let gid = translate_id header.gid spec.gid_mappings in
      if eqb_ℤ u.os.getuid (pos 0)
      then wrapping (chowning_message what uid gid path) (chown path uid gid)
      else pure tt

  -- A directory that is there is taken as it is.
  unfoldable pub make_directory : Str → TarHeader → M W ⊤
  unfolding creating_error
  make_directory path header w =
      let (r, w1) = u.os.stat path w in
      elim r [
        | ok _ ↦ (ok tt, w1)
        | err _ ↦
            let (made, w2) = u.os.mkdir path header.mode w1 in
            elim made [
              | ok _ ↦ (ok tt, w2)
              | err e ↦ (err (creating_error (codes "directory ") path header e), w2)
            ]
      ]

  unfoldable pub create_directory : Str → TarHeader → UnpackSpec Stream → M W ⊤
  unfolding make_directory own quoted
  create_directory path header spec = do
    make_directory path header
    own u.os.chown (codes "directory ") path header spec
    wrapping (codes "chmoding directory " ++ quoted path) (u.os.chmod path header.mode)
    -- the format has one verb more than arguments
    wrapping (codes "setting the modtime for directory " ++ (quoted path ++ codes ": %!s(MISSING)"))
        (u.change_mod_time path header.mod_time)

  -- What is in the place of a symbolic link is removed.
  unfoldable pub make_room : Str → M W ⊤
  unfolding quoted
  make_room path w =
      let (r, w1) = u.os.lstat path w in
      elim r [
        | ok _ ↦ wrapping (codes "removing file " ++ quoted path) (u.os.remove path) w1
        | err _ ↦ (ok tt, w1)
      ]

  unfoldable pub create_symlink : Str → TarHeader → UnpackSpec Stream → M W ⊤
  unfolding make_room own quoted
  create_symlink path header spec = do
    make_room path
    wrapping (codes "create symlink " ++ (quoted header.linkname ++ (codes " -> " ++ quoted path)))
        (u.make_symlink header.linkname path)
    wrapping (codes "setting the modtime for the symlink " ++ quoted path)
        (u.change_mod_time path header.mod_time)
    own u.lchown (codes "link ") path header spec

  unfoldable pub create_link : Str → TarHeader → M W ⊤
  create_link path header = u.make_link header.linkname path

  unfoldable pub open_regular : Str → TarHeader → M W File
  unfolding creating_error
  open_regular path header w =
      let (r, w1) = u.open_file path header.mode w in
      elim r [
        | ok file ↦ (ok file, w1)
        | err e ↦ (err (creating_error (codes "file ") path header e), w1)
      ]

  -- The file is closed also where the content cannot be written.
  unfoldable pub copy_content : Str → File → Content → M W ℤ
  unfolding quoted
  copy_content path file content w =
      let (r, w1) = u.copy file content w in
      elim r [
        | ok size ↦ (wrapping (codes "closing file " ++ quoted path) (u.close file) >> pure size) w1
        | err e ↦
            let (_, w2) = u.close file w1 in
            (err (wrap e (codes "writing to file " ++ quoted path)), w2)
      ]

  unfoldable pub create_regular_file : Str → TarHeader → Content → UnpackSpec Stream → M W ℤ
  unfolding open_regular copy_content own quoted
  create_regular_file path header content spec = do
    file ← open_regular path header
    file_size ← copy_content path file content
    own u.os.chown (codes "file ") path header spec
    wrapping (codes "chmoding file " ++ quoted path) (u.os.chmod path header.mode)
    wrapping (codes "setting the modtime for file " ++ quoted path)
        (u.change_mod_time path header.mod_time)
    pure file_size

  unfoldable pub handle_typed : Typeflag → Str → Entry Content → UnpackSpec Stream → M W ℤ
  unfolding create_link create_symlink create_directory create_regular_file
  handle_typed block path entry spec = pure (pos 0)
  handle_typed char path entry spec = pure (pos 0)
  handle_typed link path entry spec = create_link path entry.header >> pure (pos 0)
  handle_typed symlink path entry spec = create_symlink path entry.header spec >> pure (pos 0)
  handle_typed directory path entry spec = create_directory path entry.header spec >> pure (pos 0)
  handle_typed regular path entry spec = create_regular_file path entry.header entry.content spec
  handle_typed other path entry spec = pure (pos 0)

  unfoldable pub handle_entry : Str → Entry Content → UnpackSpec Stream → M W ℤ
  unfolding handle_typed
  handle_entry path entry spec = handle_typed entry.header.typeflag path entry spec

  abbrev pub entry_path : UnpackSpec Stream → Entry Content → Str
  entry_path spec entry = join (spec.base_directory ∷ entry.header.name ∷ [])

  -- One round of the loop: the bytes of the entry.
  unfoldable pub unpack_entry : UnpackSpec Stream → Entry Content → M W ℤ
  unfolding clean_whiteout_dir remove_whiteout handle_entry contains_str dir join
  unpack_entry spec entry =
      if contains_str entry.header.name (codes ".wh..wh..opq")
      then clean_whiteout_dir (dir (entry_path spec entry)) >> pure (pos 0)
      else if contains_str entry.header.name (codes ".wh.")
      then remove_whiteout (entry_path spec entry) >> pure (pos 0)
      else handle_entry (entry_path spec entry) entry spec

  -- The loop, with the bytes so far.
  unfoldable pub unpack_entries : UnpackSpec Stream → ℤ → List (Entry Content) → M W ℤ
  unfolding unpack_entry
  unpack_entries spec total [] = pure total
  unpack_entries spec total (entry ∷ entries) = do
    size ← unpack_entry spec entry
    unpack_entries spec (add64 total size) entries

  unfoldable pub safe_mkdir : Str → ℕ → M W ⊤
  unfolding quoted
  safe_mkdir path mode w =
      let (r, w1) = u.os.stat path w in
      elim r [
        | ok _ ↦ (ok tt, w1)
        | err _ ↦
            wrapping (codes "making destination directory " ++ quoted path) (u.os.mkdir path mode)
              w1
      ]

  unfoldable pub change_root : Str → M W ⊤
  change_root path = u.chroot path >> u.chdir (codes "/")

  -- `TarUnpacker.unpack`, in the process that `Unpack` starts.
  unfoldable pub unpack : UnpackSpec Stream → M W UnpackOutput
  unfolding safe_mkdir change_root unpack_entries
  unpack spec = do
    safe_mkdir spec.target_path 0o755
    wrapping (codes "failed to chroot") (change_root spec.target_path)
    total ← unpack_entries spec (pos 0) (u.entries spec.stream)
    lift (u.ending spec.stream)
    pure (output_of total)
