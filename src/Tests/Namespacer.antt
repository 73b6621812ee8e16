-- ===== src/Tests/Namespacer.antt =====
-- The namespacer on files in memory.
use mathlib.Core.List.{Permᴰ}
use groot_btrfs.Base.{
  ◌≡◌, refl, ap, ◌∙◌, true, false, ◌&&◌, List, [], ◌∷◌, arith, ℕ, zero, suc, none, some,
}
use groot_btrfs.Base.Int.{pos}
use groot_btrfs.Base.Str.{Str, codes, eqb_iff}
use groot_btrfs.Base.Effect.{Error, Result, ok, err, not_exist, succeeded, is_not_exist}
use groot_btrfs.Groot.{IdMappingSpec}
use groot_btrfs.Groot.Namespacer.{
  StoreNamespacer, Mappings, apply_mappings, normalize_mappings, deep_equal,
}
use groot_btrfs.Groot.Namespacer.Laws.{
  IsFileStore, IsCodec, apply_mappings_again, apply_mappings_reordered,
}
use groot_btrfs.Tests.Dependencies.{Texts, text_at}

-- A text for a list of strings: 0 ends a string, 1 ends the list, and a character is moved up by 2.
abbrev write_string : Str → Str → Str
write_string [] r = 0 ∷ r
write_string (c ∷ s) r = suc (suc c) ∷ write_string s r

abbrev write_strings : List Str → Str → Str
write_strings [] r = 1 ∷ r
write_strings (s ∷ ss) r = write_string s (write_strings ss r)

abbrev push : ℕ → List Str × Str → List Str × Str
push c ([], r) = ([], r)
push c (s ∷ ss, r) = ((c ∷ s) ∷ ss, r)

abbrev read_strings : Str → List Str × Str
read_strings [] = ([], [])
read_strings (zero ∷ r) = let (ss, rest) = read_strings r in ([] ∷ ss, rest)
read_strings (suc zero ∷ r) = ([], r)
read_strings (suc (suc c) ∷ r) = push c (read_strings r)

read_string_back :
    (s : Str) (ss : List Str) (r t : Str)
    → read_strings t ≡ (ss, r)
    → read_strings (write_string s t) ≡ (s ∷ ss, r)
read_string_back [] ss r t e = ap (λ p. ([] ∷ p.0, p.1)) e
read_string_back (c ∷ s) ss r t e = ap (push c) (read_string_back s ss r t e)

read_back : (ss : List Str) (r : Str) → read_strings (write_strings ss r) ≡ (ss, r)
read_back [] r = refl
read_back (s ∷ ss) r = read_string_back s ss r (write_strings ss r) (read_back ss r)

abbrev encode : Mappings → Str
encode m = write_strings m.uid_mappings (write_strings m.gid_mappings [])

abbrev decode : Str → Result Mappings
decode text =
    let (uids, rest) = read_strings text in
    ok (record { uid_mappings = uids; gid_mappings = (read_strings rest).0 })

unfoldable pub namespacer : StoreNamespacer Texts
namespacer = record {
  store_path = codes "/s";
  os = record {
    getuid = pos 0;
    getgid = pos 0;
    geteuid = pos 0;
    stat = λ p w. (
      elim (text_at w p) [
        | none ↦ err not_exist
        | some text ↦ ok (record { is_dir = false; mode = 0o644; uid = pos 0; gid = pos 0 })
      ],
      w,
    );
    lstat = λ p w. (err not_exist, w);
    mkdir = λ p mode w. (ok tt, w);
    mkdir_all = λ p mode w. (ok tt, w);
    chown = λ p u g w. (ok tt, w);
    chmod = λ p mode w. (ok tt, w);
    remove = λ p w. (ok tt, w);
    remove_all = λ p w. (ok tt, w);
    rename = λ from to w. (ok tt, w);
    read_dir = λ p w. (ok [], w);
    read_file = λ p w. (elim (text_at w p) [ none ↦ err not_exist | some text ↦ ok text ], w);
    write_file = λ p text mode w. (ok tt, (p, text) ∷ w);
    truncate = λ p n w. (ok tt, w);
    run = λ command arguments w. (([], ok tt), w);
  };
  encode = encode;
  decode = decode;
  scan = λ text. err (Error.new (codes "expected integer"));
}

pub namespacer-IsFileStore : IsFileStore text_at namespacer
unfolding namespacer is_not_exist
namespacer-IsFileStore = record {
  stat_same = λ w p. refl;
  stat_none = λ w p h. ground arith;
  stat_some = λ w p text h. ground arith;
  write_same = λ w p text mode e. ground (arith, eqb_iff p p);
  read_some = λ w p text h. ground arith;
}

namespacer-IsCodec : IsCodec namespacer
unfolding namespacer
namespacer-IsCodec m =
    let first = read_back m.uid_mappings (write_strings m.gid_mappings []) in
    ap (λ p. ok (record { uid_mappings = p.0; gid_mappings = (read_strings p.1).0 })) first
    ∙ ap (λ p. ok (record { uid_mappings = m.uid_mappings; gid_mappings = p.0 }))
        (read_back m.gid_mappings [])

abbrev root_mapping : IdMappingSpec
root_mapping = record { host_id = pos 1000; namespace_id = pos 0; size = pos 1 }

abbrev range_mapping : IdMappingSpec
range_mapping = record { host_id = pos 100000; namespace_id = pos 1; size = pos 65536 }

abbrev uids : List IdMappingSpec
uids = root_mapping ∷ range_mapping ∷ []

abbrev turned : List IdMappingSpec
turned = range_mapping ∷ root_mapping ∷ []

apply_run : succeeded (apply_mappings namespacer uids [] []).0 ≡ true
unfolding apply_mappings namespacer
apply_run = refl

apply_mappings_again_example :
    succeeded
      (apply_mappings namespacer turned
        (root_mapping ∷ [])
        (apply_mappings namespacer uids [] []).1).0
    ≡ (deep_equal (normalize_mappings uids) (normalize_mappings turned)
        && deep_equal (normalize_mappings []) (normalize_mappings (root_mapping ∷ [])))
apply_mappings_again_example =
    apply_mappings_again text_at namespacer namespacer-IsFileStore namespacer-IsCodec uids [] turned
      (root_mapping ∷ []) [] refl apply_run

apply_mappings_reordered_example :
    succeeded (apply_mappings namespacer turned [] (apply_mappings namespacer uids [] []).1).0
    ≡ true
apply_mappings_reordered_example =
    apply_mappings_reordered text_at namespacer namespacer-IsFileStore namespacer-IsCodec uids []
      turned [] [] refl apply_run (Permᴰ.swap refl refl) Permᴰ.nil
