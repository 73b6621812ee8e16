-- ===== src/Puller/BaseDirectory/Endless.antt =====
-- `ensureBaseDirectoryExists` on a base directory that is not rooted.
use groot_btrfs.Base.{◌≡◌, refl, ap, true, [], ◌∷◌, arith, ℕ, zero, suc, none}
use groot_btrfs.Base.Str.{Str, codes, eqb, eqb_iff}
use groot_btrfs.Base.Str.Laws.{slash_free}
use groot_btrfs.Base.FilePath.{dir, clean, through_slash}
use groot_btrfs.Puller.BaseDirectory.{base_directories}

through_slash-slash_free : (d : Str) → slash_free d ≡ true → through_slash d ≡ []
unfolding through_slash
through_slash-slash_free [] h = refl
through_slash-slash_free (c ∷ d) h = ground (arith, through_slash-slash_free d)

dir-slash_free : (d : Str) → slash_free d ≡ true → dir d ≡ codes "."
unfolding dir clean
dir-slash_free d h = ap clean (through_slash-slash_free d h)

-- For a base directory with no slash no number of rounds is enough: the code calls itself for ever.
pub base_directories_endless :
    (fuel : ℕ) (d : Str) → slash_free d ≡ true → base_directories fuel d ≡ none
unfolding base_directories eqb
base_directories_endless zero d h = refl
base_directories_endless (suc fuel) d h = ground (
  arith,
  dir-slash_free d h,
  eqb_iff d (codes "/"),
  base_directories_endless fuel (codes ".") refl,
)
