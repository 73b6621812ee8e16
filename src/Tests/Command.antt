-- ===== src/Tests/Command.antt =====
-- Ranges of ids, the size of a path, and what create tells the user, at concrete inputs.
use groot_btrfs.Base.{Option, none, some, false, ◌≡◌, refl, ℕ, ◌+◌, ◌*◌, ◌-◌, List, [], ◌∷◌, ◌++◌}
use groot_btrfs.Base.Int.{pos}
use groot_btrfs.Base.Str.{Str, codes}
use groot_btrfs.Base.Str.Split.{lines}
use groot_btrfs.Base.Effect.{Error, wrap, ok, err, not_exist, fatal}
use groot_btrfs.Groot.{Url}
use groot_btrfs.Config.{zero_create}
use groot_btrfs.CommandLine.{Environment, ranges_of, calculate_path_size}
use groot_btrfs.CommandLine.Request.{Kinds, docker_errors, try_humanize, create_system_context}
use groot_btrfs.Tests.Memory.{World}
use groot_btrfs.Tests.Disk.{disk_os}

unfoldable number : ℕ → Str → ℕ
number n [] = n
number n (c ∷ text) = number (n * 10 + (c - b'0')) text

-- The one file, of which root has two ranges and sys none, as the commands see it.
unfoldable environment : Environment World
unfolding disk_os number lines
environment = record {
  os = disk_os;
  commands = record {
    run = λ command arguments w. (
      record {
        stdout = codes "4096" ++ (9 ∷ codes "/s/x");
        stderr = [];
        combined = [];
        ended = ok tt;
      },
      w,
    );
    look_path = λ name w. (err not_exist, w);
    sprintf = λ format. format;
  };
  scan_mapping = λ text. err fatal;
  atoi = λ text. ok (pos (number 0 text));
  parse_int = λ text. ok (pos (number 0 text));
  fields = lines;
  find_submatch = λ pattern text. none;
  user_id = λ name w. (ok (pos 0), w);
  group_id = λ name w. (ok (pos 0), w);
}

-- The two ranges are both mapped at the id 1.
ranges_of_run :
    ranges_of environment
      (codes "root")
      (codes "root:5:10" ∷ codes "sys:7:1" ∷ codes "root:50:20" ∷ [])
    ≡ ok (
        record { host_id = pos 5; namespace_id = pos 1; size = pos 10 }
        ∷ record { host_id = pos 50; namespace_id = pos 1; size = pos 20 }
        ∷ [])
unfolding ranges_of environment number
ranges_of_run = refl

ranges_of_short_run : ranges_of environment (codes "root") (codes "root:5" ∷ []) ≡ err fatal
unfolding ranges_of environment number
ranges_of_short_run = refl

calculate_path_size_run :
    (w : World) → calculate_path_size environment (codes "/s/x") w ≡ (ok (pos 4096), w)
unfolding calculate_path_size environment number
calculate_path_size_run w = refl

-- A registry that answers each code as the list of its errors does.
abbrev kinds : List (Option ℕ) → Kinds
kinds errors = record {
  kind = λ e. docker_errors errors;
  unauthorized = 401;
  matches = λ pattern text. false;
}

abbrev url : Url
url = record {
  scheme = codes "docker";
  host = codes "r";
  path = codes "/i";
  text = codes "docker://r/i";
}

try_humanize_run :
    try_humanize (kinds (none ∷ some 401 ∷ [])) (wrap fatal (codes "pulling")) url
    ≡ codes "docker://r/i does not exist or you do not have permissions to see it."
unfolding try_humanize
try_humanize_run = refl

-- Otherwise the user sees the cause without what it is wrapped in.
try_humanize_other_run :
    try_humanize (kinds (none ∷ [])) (wrap (Error.new (codes "gone")) (codes "pulling")) url
    ≡ codes "gone"
unfolding try_humanize
try_humanize_other_run = refl

-- The certificates are only for images of the scheme oci.
create_system_context_run : create_system_context url zero_create (codes "u") (codes "p") ≡ record {
  insecure_skip_tls_verify = false;
  auth = some (codes "u", codes "p");
  cert_path = [];
}
unfolding create_system_context
create_system_context_run = refl
