-- ===== src/Tests/Unpack.antt =====
-- The unpacker over paths in memory.
use groot_btrfs.Base.{ℕ, ◌++◌, ◌≡◌, refl, ap, ◌∙◌, zero, suc, Bool, true, List, [], ◌∷◌, arith, All}
use groot_btrfs.Base.Int.{ℤ, pos, negsuc, add64}
use groot_btrfs.Base.Str.{Str, codes, contains, contains_str, has_prefix}
use groot_btrfs.Base.FilePath.{join}
use groot_btrfs.Base.Os.{Os}
use groot_btrfs.Base.Commands.{Output}
use groot_btrfs.Base.Effect.{Error, Result, ok, err}
use groot_btrfs.Gc.{insert_key, delete_key}
use groot_btrfs.Gc.Orphans.{contains-insert_key, eqb_self}
use groot_btrfs.Groot.{IdMappingSpec}
use groot_btrfs.Puller.{UnpackSpec, UnpackOutput}
use groot_btrfs.Unpacker.{TarUnpacker, Entry, Typeflag, unpack, output_of}
use groot_btrfs.Unpacker.Keep.{IsFileSystem}
use groot_btrfs.Unpacker.Present.{only_adds, unpack_there}
use groot_btrfs.Unpacker.Reexec.{
  Reexec, IsReexec, printing, unpack_decoded, print_output, chroot_unpack, unpack_in_child,
  passed_on, unpack_in_child_eq,
}
use groot_btrfs.Tests.Memory.{World}
use groot_btrfs.Tests.Disk.{disk_os}

abbrev Archive : Type 0
Archive = List (Entry Str)

-- A directory that is read has an entry `new`.
unfoldable tar_os : Os World
unfolding disk_os
tar_os = record disk_os {
  mkdir = λ p mode w. (ok tt, record w { volumes = insert_key p w.volumes });
  remove_all = λ p w. (ok tt, record w { volumes = delete_key p w.volumes });
  read_dir = λ p w. (ok (codes "new" ∷ []), w);
}

unfoldable tar : TarUnpacker World Archive Str Str
unfolding tar_os
tar = record {
  os = tar_os;
  entries = λ archive. archive;
  ending = λ archive. ok tt;
  chroot = λ path w. (ok tt, w);
  chdir = λ path w. (ok tt, w);
  make_symlink = λ to p w. (ok tt, record w { volumes = insert_key p w.volumes });
  make_link = λ to p w. (ok tt, record w { volumes = insert_key p w.volumes });
  lchown = λ p uid gid w. (ok tt, w);
  open_file = λ p mode w. (ok p, record w { volumes = insert_key p w.volumes });
  copy = λ file content w. (ok (pos 10), w);
  close = λ file w. (ok tt, w);
  change_mod_time = λ p time w. (ok tt, w);
}

insert_keeps :
    (p q : Str) (ps : List Str) → contains ps q ≡ true → contains (insert_key p ps) q ≡ true
insert_keeps p q ps h = ground (arith, contains-insert_key p q ps)

insert_leaves : (p : Str) (ps : List Str) → contains (insert_key p ps) p ≡ true
insert_leaves p ps = ground (arith, contains-insert_key p p ps, eqb_self p)

abbrev paths_of : World → Str → Bool
paths_of w = contains w.volumes

tar-IsFileSystem : IsFileSystem paths_of tar
unfolding tar
tar-IsFileSystem = record {
  stat_keeps = λ q p. record { kept = λ w h. ground arith };
  lstat_keeps = λ q p. record { kept = λ w h. h };
  read_dir_keeps = λ q p. record { kept = λ w h. h };
  mkdir_keeps = λ q p mode. record { kept = λ w h. insert_keeps p q w.volumes h };
  chown_keeps = λ q p uid gid. record { kept = λ w h. h };
  lchown_keeps = λ q p uid gid. record { kept = λ w h. h };
  chmod_keeps = λ q p mode. record { kept = λ w h. h };
  modtime_keeps = λ q p time. record { kept = λ w h. h };
  symlink_keeps = λ q p to. record { kept = λ w h. insert_keeps p q w.volumes h };
  link_keeps = λ q p to. record { kept = λ w h. insert_keeps p q w.volumes h };
  open_keeps = λ q p mode. record { kept = λ w h. insert_keeps p q w.volumes h };
  copy_keeps = λ q file content. record { kept = λ w h. h };
  close_keeps = λ q file. record { kept = λ w h. h };
  stat_leaves = λ p. record { left = λ w h. ground arith };
  mkdir_leaves = λ p mode. record { left = λ w h. insert_leaves p w.volumes };
  open_leaves = λ p mode. record { left = λ w h. insert_leaves p w.volumes };
}

abbrev entry : Typeflag → Str → Entry Str
entry t name = record {
  header = record {
    name = name;
    typeflag = t;
    mode = 420;
    uid = pos 0;
    gid = pos 0;
    linkname = [];
    mod_time = pos 0;
  };
  content = codes "text";
}

abbrev spec_of : Archive → UnpackSpec Archive
spec_of archive = record {
  stream = archive;
  target_path = codes "/v";
  uid_mappings = [];
  gid_mappings = [];
  base_directory = codes "/";
}

abbrev empty : World
empty = record { volumes = []; images = []; registry = []; held = 0 }

abbrev file : Entry Str
file = entry Typeflag.regular (codes "d/a")

abbrev earlier : Archive
earlier =
    entry Typeflag.directory (codes "d")
    ∷ entry Typeflag.regular (codes "d/.wh.b")
    ∷ entry Typeflag.symlink (codes "c")
    ∷ []

abbrev later : Archive
later = entry Typeflag.directory (codes "d") ∷ entry Typeflag.regular (codes "d/z") ∷ []

abbrev archive : Archive
archive = earlier ++ (file ∷ later)

unpack_run : unpack tar (spec_of archive) empty ≡ (
  ok (output_of (pos 20)),
  record empty {
    volumes = codes "/d/z" ∷ codes "/d/a" ∷ codes "/c" ∷ codes "/d" ∷ codes "/v" ∷ [];
  },
)
unfolding unpack tar contains insert_key add64 delete_key
unpack_run = refl

later_adds : All (λ e. only_adds e ≡ true) later
unfolding contains_str has_prefix
later_adds = (refl, (refl, tt))

unpack_there_example : contains (unpack tar (spec_of archive) empty).1.volumes (codes "/d/a") ≡ true
unfolding contains_str has_prefix unpack tar join contains insert_key delete_key
unpack_there_example =
    unpack_there paths_of tar tar-IsFileSystem (spec_of archive) empty earlier file later refl refl
      refl refl later_adds refl

-- What lies in a directory is taken away by its opaque whiteout, also where the same archive brought
-- it.
opaque_run :
    unpack tar
      (spec_of (
        entry Typeflag.directory (codes "d")
        ∷ entry Typeflag.regular (codes "d/new")
        ∷ entry Typeflag.regular (codes "d/.wh..wh..opq")
        ∷ []))
      empty
    ≡ (ok (output_of (pos 10)), record empty { volumes = codes "/d" ∷ codes "/v" ∷ [] })
unfolding unpack tar contains insert_key add64 delete_key
opaque_run = refl

-- A file whose name has the mark in the middle is taken for a whiteout.
mark_run :
    unpack tar
      (spec_of (
        entry Typeflag.regular (codes "notestxt")
        ∷ entry Typeflag.regular (codes "notes.wh.txt")
        ∷ []))
      empty
    ≡ (ok (output_of (pos 10)), record empty { volumes = codes "/v" ∷ [] })
unfolding unpack tar contains insert_key add64 delete_key
mark_run = refl

-- Texts as one text: each ends with 0, and its characters are above 0.
abbrev text_onto : Str → Str → Str
text_onto [] rest = 0 ∷ rest
text_onto (c ∷ s) rest = suc c ∷ text_onto s rest

abbrev texts : List Str → Str
texts [] = []
texts (s ∷ ss) = text_onto s (texts ss)

abbrev cons_first : ℕ → List Str → List Str
cons_first c [] = (c ∷ []) ∷ []
cons_first c (s ∷ ss) = (c ∷ s) ∷ ss

abbrev read_texts : Str → List Str
read_texts [] = []
read_texts (zero ∷ r) = [] ∷ read_texts r
read_texts (suc c ∷ r) = cons_first c (read_texts r)

read_text_lem : (s rest : Str) → read_texts (text_onto s rest) ≡ s ∷ read_texts rest
read_text_lem [] rest = refl
read_text_lem (c ∷ s) rest = ap (cons_first c) (read_text_lem s rest)

read_texts_lem : (ss : List Str) → read_texts (texts ss) ≡ ss
read_texts_lem [] = refl
read_texts_lem (s ∷ ss) = read_text_lem s (texts ss) ∙ ap (λ t. s ∷ t) (read_texts_lem ss)

unfoldable write_output : ℤ → List Str → Str
write_output (pos n) paths = 0 ∷ n ∷ texts paths
write_output (negsuc n) paths = 1 ∷ n ∷ texts paths

unfoldable read_json : Str → Result UnpackOutput
read_json (zero ∷ n ∷ r) = ok (record { bytes_written = pos n; opaque_whiteouts = read_texts r })
read_json (suc _ ∷ n ∷ r) =
    ok (record { bytes_written = negsuc n; opaque_whiteouts = read_texts r })
read_json _ = err (Error.new (codes "no output"))

read_written :
    (n : ℤ) (paths : List Str)
    → read_json (write_output n paths) ≡ ok (record { bytes_written = n; opaque_whiteouts = paths })
unfolding read_json write_output
read_written (pos n) paths = cc (read_texts_lem paths)
read_written (negsuc n) paths = cc (read_texts_lem paths)

abbrev plain_spec : Archive → Str → UnpackSpec Archive
plain_spec s target = record {
  stream = s;
  target_path = target;
  uid_mappings = [];
  gid_mappings = [];
  base_directory = [];
}

-- Only a specification without mappings is encoded, as its target.
unfoldable write_spec : List IdMappingSpec → List IdMappingSpec → Str → Str → Result Str
write_spec [] [] [] target = ok target
write_spec _ _ _ target = err (Error.new (codes "not encoded"))

abbrev codec : Reexec World Archive
codec = record {
  strategy = ok (codes "{}");
  encode_spec = λ s. write_spec s.uid_mappings s.gid_mappings s.base_directory s.target_path;
  decode_spec = λ text. ok (plain_spec [] text);
  decode_strategy = λ text. ok tt;
  encode_output = λ out. write_output out.bytes_written out.opaque_whiteouts;
  decode_output = read_json;
  reexec = λ name arguments stream w. (printing [], w);
}

unfoldable process : List Str → Archive → World → Output × World
unfolding chroot_unpack tar
process (spec_json ∷ strategy_json ∷ []) stream w =
    chroot_unpack codec tar spec_json strategy_json stream w
process _ stream w = (printing [], w)

abbrev parent : Reexec World Archive
parent = record codec { reexec = λ name. process }

spec_read :
    (s : Archive) (us gs : List IdMappingSpec) (b t text : Str)
    → write_spec us gs b t ≡ ok text
    → record (plain_spec [] text) { stream = s } ≡ record {
      stream = s;
      target_path = t;
      uid_mappings = us;
      gid_mappings = gs;
      base_directory = b;
    }
unfolding write_spec
spec_read s [] [] [] t text e = ap (plain_spec s) (ground (arith, e))
spec_read s [] [] (c ∷ b) t text e = absurd (ground (arith, e))
spec_read s [] (g ∷ gs) b t text e = absurd (ground (arith, e))
spec_read s (v ∷ us) gs b t text e = absurd (ground (arith, e))

parent-IsReexec : IsReexec parent tar
unfolding process chroot_unpack unpack_decoded print_output
parent-IsReexec = record {
  reexec_eq = λ w spec_json strategy_json stream. refl;
  strategy_eq = λ text e. refl;
  spec_eq = λ s text e. (
    plain_spec [] text,
    refl,
    spec_read s.stream s.uid_mappings s.gid_mappings s.base_directory s.target_path text e,
  );
  output_eq = λ out. read_written out.bytes_written out.opaque_whiteouts;
}

unpack_in_child_eq_example : unpack_in_child parent (plain_spec archive (codes "/v")) empty ≡ (
  passed_on parent (unpack tar (plain_spec archive (codes "/v")) empty).0,
  (unpack tar (plain_spec archive (codes "/v")) empty).1,
)
unfolding write_spec
unpack_in_child_eq_example =
    unpack_in_child_eq parent tar parent-IsReexec (plain_spec archive (codes "/v")) (codes "{}")
      (codes "/v") empty refl refl
