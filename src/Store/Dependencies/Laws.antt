-- ===== src/Store/Dependencies/Laws.antt =====
-- Registration, and what is found afterwards.
use groot_btrfs.Base.{
  ◌≡◌, ◌≢◌, refl, ◌∙◌, sym, ap, true, false, List, [], ◌∷◌, ◌++◌, arith, ℕ, inl, inr, Option, none,
  some,
}
use mathlib.Core.List.{append_cancel_right}
use groot_btrfs.Base.Str.{Str, codes, eqb}
use groot_btrfs.Base.Str.Laws.{slash_free, slash_free-append}
use groot_btrfs.Base.FilePath.{join}
use groot_btrfs.Base.FilePath.Laws.{IsName, join_names-injective}
use groot_btrfs.Base.Effect.{ok, Result-cases, succeeded}
use groot_btrfs.Store.Dependencies.{
  DependencyManager, escaped, file_name, file_path, register, deregister, dependencies,
}

escaped_same : (id : Str) → slash_free id ≡ true → escaped id ≡ id
unfolding escaped
escaped_same [] h = refl
escaped_same (c ∷ id) h = ground (arith, escaped_same id)

-- Ids with no slash have files of their own.
file_name-injective :
    (id other : Str)
    → slash_free id ≡ true
    → slash_free other ≡ true
    → file_name id ≡ file_name other
    → id ≡ other
unfolding file_name
file_name-injective id other h k e =
    sym (escaped_same id h)
    ∙ append_cancel_right (escaped id) (escaped other) (codes ".json") e
    ∙ escaped_same other k

json_full : (s : Str) → eqb (s ++ codes ".json") [] ≡ false
unfolding eqb
json_full [] = refl
json_full (c ∷ s) = refl

json_no_dot : (s : Str) → eqb (s ++ codes ".json") (codes ".") ≡ false
unfolding eqb
json_no_dot [] = refl
json_no_dot (c ∷ s) = ground (arith, json_full s)

json_no_dots : (s : Str) → eqb (s ++ codes ".json") (codes "..") ≡ false
unfolding eqb
json_no_dots [] = refl
json_no_dots (c ∷ s) = ground (arith, json_no_dot s)

file_name-IsName : (id : Str) → slash_free id ≡ true → IsName (file_name id)
unfolding file_name
file_name-IsName id h = record {
  no_slash = ground (arith, slash_free-append (escaped id) (codes ".json"), escaped_same id h);
  full = json_full (escaped id);
  no_dot = json_no_dot (escaped id);
  no_dots = json_no_dots (escaped id);
}

-- `file w p`: the text of the file at the path `p`.
pub record IsFileStore {W : Type 0} (file : W → Str → Option Str) (d : DependencyManager W)
    : Type 0 where
  pub rooted : eqb d.dependencies_path [] ≡ false
  pub write_same :
      (w : W) (p text : Str) (mode : ℕ)
      → succeeded (d.os.write_file p text mode w).0 ≡ true
      → file (d.os.write_file p text mode w).1 p ≡ some text
  pub write_other :
      (w : W) (p text q : Str) (mode : ℕ)
      → q ≢ p
      → file (d.os.write_file p text mode w).1 q ≡ file w q
  pub remove_same :
      (w : W) (p : Str) → succeeded (d.os.remove p w).0 ≡ true → file (d.os.remove p w).1 p ≡ none
  pub remove_other : (w : W) (p q : Str) → q ≢ p → file (d.os.remove p w).1 q ≡ file w q
  pub read_some : (w : W) (p text : Str) → file w p ≡ some text → (d.os.read_file p w).0 ≡ ok text
  pub read_none : (w : W) (p : Str) → file w p ≡ none → succeeded (d.os.read_file p w).0 ≡ false

-- The decoder reads what was written.
abbrev pub IsCodec : {W : Type 0} → DependencyManager W → Type 0
IsCodec d = (ids : List Str) (text : Str) → d.marshal ids ≡ ok text → d.decode text ≡ ok ids

path-injective :
    (p id other : Str)
    → eqb p [] ≡ false
    → slash_free id ≡ true
    → slash_free other ≡ true
    → join (p ∷ file_name id ∷ []) ≡ join (p ∷ file_name other ∷ [])
    → id ≡ other
unfolding eqb
path-injective [] id other full h k e = absurd (ground (arith, full))
path-injective (c ∷ p) id other full h k e = file_name-injective id other h k (
    join_names-injective c p (file_name id) (file_name other) (file_name-IsName id h)
      (file_name-IsName other k) e)

module _ {W : Type 0} (file : W → Str → Option Str) (d : DependencyManager W)
    (L : IsFileStore file d) where
  dependencies_some :
      (id text : Str) (w : W)
      → file w (file_path d id) ≡ some text
      → (dependencies d id w).0 ≡ d.decode text
  unfolding dependencies
  dependencies_some id text w h = ground (arith, L.read_some w (file_path d id) text h)

  other_path :
      (id other : Str)
      → slash_free id ≡ true
      → slash_free other ≡ true
      → other ≢ id
      → file_path d other ≢ file_path d id
  unfolding file_path
  other_path id other h k ne same =
      ne (path-injective d.dependencies_path other id L.rooted k h same)

  -- For ids with no slash: after a successful registration the dependencies of the id are what was
  -- registered, and the file of every other id is what it was.
  pub register-dependencies :
      (id other : Str) (ids : List Str) (w : W)
      → IsCodec d
      → slash_free id ≡ true
      → slash_free other ≡ true
      → other ≢ id
      → succeeded (register d id ids w).0 ≡ true
      → ((dependencies d id (register d id ids w).1).0 ≡ ok ids)
        × (file (register d id ids w).1 (file_path d other) ≡ file w (file_path d other))
  unfolding register
  register-dependencies id other ids w codec h k ne e = elim (Result-cases (d.marshal ids)) [
    | inr (x, failed) ↦ absurd (ground (arith, failed))
    | inl (text, written) ↦
        let w1 = (d.os.write_file (file_path d id) text 0o666 w).1 in
        let fine : succeeded (d.os.write_file (file_path d id) text 0o666 w).0 ≡ true =
          ground (arith, written) in
        let done : (register d id ids w).1 ≡ w1 = ground (arith, written) in
        (
          ap (λ t. (dependencies d id t).0) done
              ∙ dependencies_some id text w1 (L.write_same w (file_path d id) text 0o666 fine)
              ∙ codec ids text written,
          ap (λ t. file t (file_path d other)) done
              ∙ L.write_other w (file_path d id) text (file_path d other) 0o666
                  (other_path id other h k ne),
        )
  ]

  -- For ids with no slash: after a successful deregistration the id has no dependencies to be found,
  -- and the file of every other id is what it was.
  pub deregister-dependencies :
      (id other : Str) (w : W)
      → slash_free id ≡ true
      → slash_free other ≡ true
      → other ≢ id
      → succeeded (deregister d id w).0 ≡ true
      → (succeeded (dependencies d id (deregister d id w).1).0 ≡ false)
        × (file (deregister d id w).1 (file_path d other) ≡ file w (file_path d other))
  unfolding deregister dependencies
  deregister-dependencies id other w h k ne e =
      let w1 = (d.os.remove (file_path d id) w).1 in
      (
        ground (arith, L.read_none w1 (file_path d id) (L.remove_same w (file_path d id) e)),
        L.remove_other w (file_path d id) (file_path d other) (other_path id other h k ne),
      )
