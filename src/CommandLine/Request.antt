-- ===== src/CommandLine/Request.antt =====
-- The command create of commands/create.go: how it asks for an image, what it trusts a registry with,
-- and what it tells the user of an error.
use groot_btrfs.Base.{
  ℕ, Bool, true, false, not, List, [], ◌∷◌, ◌++◌, Option, none, some, if◌then◌else◌, ◌==◌,
}
use groot_btrfs.Base.Str.{Str, codes, eqb}
use groot_btrfs.Base.Effect.{Error, cause, message}
use groot_btrfs.Groot.{Url, IdMappings, CreateSpec}
use groot_btrfs.Config.{Config, Create}
use groot_btrfs.CommandLine.{skip_tls_validation}

-- `types.SystemContext`: the parts that the command sets.
pub record SystemContext : Type 0 where
  pub insecure_skip_tls_verify : Bool
  pub auth : Option (Str × Str)
  pub cert_path : Str

abbrev pub zero_context : SystemContext
zero_context = record { insecure_skip_tls_verify = false; auth = none; cert_path = [] }

unfoldable pub create_system_context : Url → Create → Str → Str → SystemContext
unfolding eqb skip_tls_validation
create_system_context url cfg username password =
    if eqb url.scheme (codes "docker")
    then record zero_context {
      insecure_skip_tls_verify = skip_tls_validation url cfg.insecure_registries;
      auth = some (username, password);
    }
    else if eqb url.scheme (codes "oci")
    then record zero_context { cert_path = cfg.remote_layer_client_certificates_path }
    else zero_context

-- What the command asks the creator for.
unfoldable pub create_spec : Str → Url → Config → IdMappings → CreateSpec
create_spec id url cfg mappings = record {
  id = id;
  mount = not cfg.create.without_mount;
  base_image_url = url;
  disk_limit = cfg.create.disk_limit_size_bytes;
  exclude_base_image_from_quota = cfg.create.exclude_image_from_quota;
  uid_mappings = mappings.uid_mappings;
  gid_mappings = mappings.gid_mappings;
  clean_on_create = cfg.create.with_clean;
  clean_on_create_threshold_bytes = cfg.clean.threshold_bytes;
}

-- The Go types of an error that the command tells apart: a `*url.Error`, which may hold an unknown
-- authority, an `errcode.Errors`, with the codes of those of its errors that have one, and any other.
pub data Kind : Type 0 where
  url_error : Bool → Kind
  docker_errors : List (Option ℕ) → Kind
  other : Kind

-- `unauthorized` is `errcode.ErrorCodeUnauthorized`; `matches` is `regexp.MatchString`.
pub record Kinds : Type 0 where
  pub kind : Error → Kind
  pub unauthorized : ℕ
  pub matches : Str → Str → Bool

unfoldable pub contains_docker_error : List (Option ℕ) → ℕ → Bool
contains_docker_error [] code = false
contains_docker_error (none ∷ errors) code = contains_docker_error errors code
contains_docker_error (some c ∷ errors) code =
    let rest = contains_docker_error errors code in if c == code then true else rest

module _ (k : Kinds) where
  unfoldable pub try_parsing_error_message : Error → Error
  unfolding cause message eqb
  try_parsing_error_message e =
      let m = message (cause e) in
      if eqb m (codes "unable to retrieve auth token: 401 unauthorized")
      then Error.new (codes "authorization failed: username and password are invalid")
      else if eqb m (codes "directory provided instead of a tar file")
      then Error.new (codes "invalid base image: " ++ m)
      else if k.matches (codes "fetching image reference: .*: no such file or directory")
          (message e)
      then Error.new (codes "Image source doesn't exist")
      else e

  unfoldable pub try_humanize_docker_errors_list : List (Option ℕ) → Error → Url → Str
  unfolding contains_docker_error message
  try_humanize_docker_errors_list errors e url =
      if contains_docker_error errors k.unauthorized
      then url.text ++ codes " does not exist or you do not have permissions to see it."
      else message e

  unfoldable pub try_humanize : Error → Url → Str
  unfolding try_parsing_error_message try_humanize_docker_errors_list cause message
  try_humanize e url = elim (k.kind (cause e)) [
    | url_error true ↦
        codes
          "This registry is insecure. To pull images from this registry, please use the --insecure-registry option."
    | url_error false ↦ message (try_parsing_error_message e)
    | docker_errors errors ↦ try_humanize_docker_errors_list errors (cause e) url
    | other ↦ message (try_parsing_error_message e)
  ]
