-- ===== src/Store/Dependencies.antt =====
-- store/dependency_manager/dependency_manager.go. Package `encoding/json` is a parameter: how it
-- writes a list of strings and what it reads from a text.
pub mod Laws
use groot_btrfs.Base.{Bool, List, [], ◌∷◌, ◌++◌, if◌then◌else◌, ◌==◌}
use groot_btrfs.Base.Str.{Str, codes}
use groot_btrfs.Base.FilePath.{join}
use groot_btrfs.Base.Os.{Os}
use groot_btrfs.Base.Effect.{M, ⊤, Error, Result, ok, err, is_not_exist}

pub record DependencyManager (W : Type 0) : Type 0 where
  pub dependencies_path : Str
  pub os : Os W
  pub marshal : List Str → Result Str
  pub decode : Str → Result (List Str)

-- `strings.Replace(id, "/", "__", -1)`
unfoldable pub escaped : Str → Str
escaped [] = []
escaped (c ∷ id) = let rest = escaped id in if c == b'/' then b'_' ∷ b'_' ∷ rest else c ∷ rest

unfoldable pub file_name : Str → Str
unfolding escaped
file_name id = escaped id ++ codes ".json"

module _ {W : Type 0} (d : DependencyManager W) where
  unfoldable pub file_path : Str → Str
  unfolding file_name join
  file_path id = join (d.dependencies_path ∷ file_name id ∷ [])

  unfoldable pub register : Str → List Str → M W ⊤
  unfolding file_path
  register id chain_ids w = elim (d.marshal chain_ids) [
    | err e ↦ (err e, w)
    | ok text ↦ d.os.write_file (file_path id) text 0o666 w
  ]

  unfoldable pub deregister : Str → M W ⊤
  unfolding file_path
  deregister id = d.os.remove (file_path id)

  unfoldable pub dependencies : Str → M W (List Str)
  unfolding file_path is_not_exist
  dependencies id w =
      let (r, w1) = d.os.read_file (file_path id) w in
      elim r [
        | err e ↦
            if is_not_exist e
            then (err (Error.new (codes "image `" ++ (id ++ codes "` not found"))), w1)
            else (err e, w1)
        | ok text ↦ (d.decode text, w1)
      ]
