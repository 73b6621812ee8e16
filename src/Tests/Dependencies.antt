-- ===== src/Tests/Dependencies.antt =====
-- The registration of dependencies in a directory in memory.
use groot_btrfs.Base.{
  ◌≡◌, ◌≢◌, refl, true, false, List, [], ◌∷◌, arith, Option, none, some, if◌then◌else◌,
}
use groot_btrfs.Base.Int.{pos}
use groot_btrfs.Base.Str.{Str, codes, eqb, eqb_iff}
use groot_btrfs.Base.Effect.{Error, Result, ok, err, not_exist, succeeded}
use groot_btrfs.Store.Dependencies.{
  DependencyManager, register, deregister, dependencies, file_path,
}
use groot_btrfs.Store.Dependencies.Laws.{
  IsFileStore, IsCodec, register-dependencies, deregister-dependencies,
}

abbrev pub Texts : Type 0
Texts = List (Str × Str)

abbrev pub text_at : Texts → Str → Option Str
text_at [] p = none
text_at ((q, text) ∷ w) p = if eqb q p then some text else text_at w p

abbrev without : Str → Texts → Texts
without p [] = []
without p ((q, text) ∷ w) = if eqb q p then without p w else (q, text) ∷ without p w

-- One id is written as it is; there is no text for more.
abbrev one_id : List Str → Result Str
one_id (id ∷ []) = ok id
one_id ids = err (Error.new (codes "not one id"))

text_at-without :
    (p q : Str) (w : Texts) → text_at (without p w) q ≡ (if eqb p q then none else text_at w q)
text_at-without p q [] = ground arith
text_at-without p q ((r, text) ∷ w) =
    ground (arith, text_at-without p q w, eqb_iff r p, eqb_iff r q, eqb_iff p q)

unfoldable manager : DependencyManager Texts
manager = record {
  dependencies_path = codes "/s/meta/dependencies";
  os = record {
    getuid = pos 0;
    getgid = pos 0;
    geteuid = pos 0;
    stat = λ p w. (err not_exist, w);
    lstat = λ p w. (err not_exist, w);
    mkdir = λ p mode w. (ok tt, w);
    mkdir_all = λ p mode w. (ok tt, w);
    chown = λ p u g w. (ok tt, w);
    chmod = λ p mode w. (ok tt, w);
    remove = λ p w. (ok tt, without p w);
    remove_all = λ p w. (ok tt, without p w);
    rename = λ from to w. (ok tt, w);
    read_dir = λ p w. (ok [], w);
    read_file = λ p w. (elim (text_at w p) [ none ↦ err not_exist | some text ↦ ok text ], w);
    write_file = λ p text mode w. (ok tt, (p, text) ∷ w);
    truncate = λ p n w. (ok tt, w);
    run = λ command arguments w. (([], ok tt), w);
  };
  marshal = one_id;
  decode = λ text. ok (text ∷ []);
}

manager-IsFileStore : IsFileStore text_at manager
unfolding manager eqb
manager-IsFileStore = record {
  rooted = refl;
  write_same = λ w p text mode e. ground (arith, eqb_iff p p);
  write_other = λ w p text q mode ne. ground (arith, eqb_iff p q);
  remove_same = λ w p e. ground (arith, text_at-without p p w, eqb_iff p p);
  remove_other = λ w p q ne. ground (arith, text_at-without p q w, eqb_iff p q);
  read_some = λ w p text h. ground arith;
  read_none = λ w p h. ground arith;
}

manager-IsCodec : IsCodec manager
unfolding manager
manager-IsCodec [] text e = ground arith
manager-IsCodec (id ∷ []) text e = ground arith
manager-IsCodec (id ∷ other ∷ ids) text e = ground arith

others : codes "image:b" ≢ codes "image:a"
unfolding eqb
others e =
    let same : eqb (codes "image:b") (codes "image:a") ≡ true =
      (eqb_iff (codes "image:b") (codes "image:a")).1 e in
    ground arith

register_run : succeeded (register manager (codes "image:a") (codes "base" ∷ []) []).0 ≡ true
unfolding register manager
register_run = refl

register-dependencies_example :
    ((dependencies manager
        (codes "image:a")
        (register manager (codes "image:a") (codes "base" ∷ []) []).1).0
      ≡ ok (codes "base" ∷ []))
    × (text_at
          (register manager (codes "image:a") (codes "base" ∷ []) []).1
          (file_path manager (codes "image:b"))
        ≡ none)
register-dependencies_example =
    register-dependencies text_at manager manager-IsFileStore (codes "image:a") (codes "image:b")
      (codes "base" ∷ []) [] manager-IsCodec refl refl others register_run

abbrev registered : Texts
registered = (codes "/s/meta/dependencies/image:a.json", codes "base") ∷ []

deregister_run : succeeded (deregister manager (codes "image:a") registered).0 ≡ true
unfolding deregister manager
deregister_run = refl

deregister-dependencies_example :
    (succeeded
        (dependencies manager
          (codes "image:a")
          (deregister manager (codes "image:a") registered).1).0
      ≡ false)
    × (text_at
          (deregister manager (codes "image:a") registered).1
          (file_path manager (codes "image:b"))
        ≡ text_at registered (file_path manager (codes "image:b")))
deregister-dependencies_example =
    deregister-dependencies text_at manager manager-IsFileStore (codes "image:a") (codes "image:b")
      registered refl refl others deregister_run
