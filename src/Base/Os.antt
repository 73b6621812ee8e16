-- ===== src/Base/Os.antt =====
-- What the program asks of the operating system and of other commands: a parameter of the model.
-- Package `os` passes these calls to the kernel, and package `os/exec` runs the commands.
use groot_btrfs.Base.{ℕ, Bool, List}
use groot_btrfs.Base.Int.{ℤ}
use groot_btrfs.Base.Str.{Str}
use groot_btrfs.Base.Effect.{M, ⊤, Result}

pub record FileInfo : Type 0 where
  pub is_dir : Bool
  pub mode : ℕ
  pub uid : ℤ
  pub gid : ℤ

pub record Os (W : Type 0) : Type 0 where
  pub getuid : ℤ
  pub getgid : ℤ
  pub geteuid : ℤ
  pub stat : Str → M W FileInfo
  pub lstat : Str → M W FileInfo
  pub mkdir : Str → ℕ → M W ⊤
  pub mkdir_all : Str → ℕ → M W ⊤
  pub chown : Str → ℤ → ℤ → M W ⊤
  pub chmod : Str → ℕ → M W ⊤
  pub remove : Str → M W ⊤
  pub remove_all : Str → M W ⊤
  pub rename : Str → Str → M W ⊤
  -- `ioutil.ReadDir`: the names of the entries
  pub read_dir : Str → M W (List Str)
  pub read_file : Str → M W Str
  -- creates the file or empties it, and writes the text
  pub write_file : Str → Str → ℕ → M W ⊤
  pub truncate : Str → ℤ → M W ⊤
  -- runs a command with arguments: its output and how it ended
  pub run : Str → List Str → W → (Str × Result ⊤) × W
