-- ===== src/Base/Commands.antt =====
-- Other programs that are run: packages `os/exec` and `commandrunner` are a parameter of the model.
use groot_btrfs.Base.{List}
use groot_btrfs.Base.Str.{Str}
use groot_btrfs.Base.Effect.{M, ⊤, Result}

-- What a command wrote, and how it ended; `combined` is what both streams wrote, in order.
pub record Output : Type 0 where
  pub stdout : Str
  pub stderr : Str
  pub combined : Str
  pub ended : Result ⊤

-- `look_path` is `exec.LookPath`, and `sprintf` is `fmt.Sprintf` of a format with no arguments.
pub record Commands (W : Type 0) : Type 0 where
  pub run : Str → List Str → W → Output × W
  pub look_path : Str → M W Str
  pub sprintf : Str → Str
