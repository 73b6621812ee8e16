-- ===== src/Config/Laws.antt =====
-- What the flags of `create` do to the configuration of the file.
use groot_btrfs.Base.{◌≡◌, refl, Bool, not, ◌&&◌, ◌||◌, List, [], ◌∷◌, arith, if◌then◌else◌}
use groot_btrfs.Base.Int.{ℤ, pos, ltb_ℤ, ◌≤ℤ◌}
use groot_btrfs.Base.Str.{Str}
use groot_btrfs.Base.Effect.{ok, succeeded}
use groot_btrfs.Config.{
  Config, CreateFlags, create_config, flagged, with_insecure_registries, with_disk_limit_size_bytes,
  with_exclude_image_from_quota, with_skip_layer_validation, with_clean_threshold_bytes, with_clean,
  with_mount, build,
}

-- A flag that is set wins over the file.
abbrev pub chosen {ℓ} : {A : Type ℓ} → A × Bool → A → A
chosen flag default = if flag.1 then flag.0 else default

-- The configuration that the flags ask for: a flag wins over the file, `--without-clean` over
-- `--with-clean`, and `--without-mount` over `--with-mount`.
abbrev pub asked : CreateFlags → Config → Config
asked f c = record c {
  create = record {
    exclude_image_from_quota = chosen f.exclude_image_from_quota c.create.exclude_image_from_quota;
    skip_layer_validation = chosen f.skip_layer_validation c.create.skip_layer_validation;
    with_clean = not f.without_clean && (f.with_clean || c.create.with_clean);
    without_mount = f.without_mount || (not f.with_mount && c.create.without_mount);
    disk_limit_size_bytes = chosen f.disk_limit_size_bytes c.create.disk_limit_size_bytes;
    insecure_registries = elim f.insecure_registry [
      | [] ↦ c.create.insecure_registries
      | r ∷ rs ↦ r ∷ rs
    ];
    remote_layer_client_certificates_path = c.create.remote_layer_client_certificates_path;
  };
  clean = record { threshold_bytes = chosen f.threshold_bytes c.clean.threshold_bytes };
}

registries_lem :
    (rs : List Str) (c : Config)
    → with_insecure_registries rs c ≡ record c {
      create = record (c.create) {
        insecure_registries = elim rs [ [] ↦ c.create.insecure_registries | r ∷ t ↦ r ∷ t ];
      };
    }
unfolding with_insecure_registries
registries_lem [] c = refl
registries_lem (r ∷ rs) c = refl

clean_lem :
    (clean no_clean : Bool) (c : Config)
    → with_clean clean no_clean c ≡ record c {
      create = record (c.create) { with_clean = not no_clean && (clean || c.create.with_clean) };
    }
unfolding with_clean
clean_lem clean no_clean c = ground arith

mount_lem :
    (mount no_mount : Bool) (c : Config)
    → with_mount mount no_mount c ≡ record c {
      create = record (c.create) {
        without_mount = no_mount || (not mount && c.create.without_mount);
      };
    }
unfolding with_mount
mount_lem mount no_mount c = ground arith

limit_lem :
    (limit : ℤ) (is_set : Bool) (c : Config)
    → with_disk_limit_size_bytes limit is_set c ≡ record c {
      create = record (c.create) {
        disk_limit_size_bytes = if is_set then limit else c.create.disk_limit_size_bytes;
      };
    }
unfolding with_disk_limit_size_bytes
limit_lem limit is_set c = ground arith

exclude_lem :
    (exclude is_set : Bool) (c : Config)
    → with_exclude_image_from_quota exclude is_set c ≡ record c {
      create = record (c.create) {
        exclude_image_from_quota = if is_set then exclude else c.create.exclude_image_from_quota;
      };
    }
unfolding with_exclude_image_from_quota
exclude_lem exclude is_set c = ground arith

skip_lem :
    (skip is_set : Bool) (c : Config)
    → with_skip_layer_validation skip is_set c ≡ record c {
      create = record (c.create) {
        skip_layer_validation = if is_set then skip else c.create.skip_layer_validation;
      };
    }
unfolding with_skip_layer_validation
skip_lem skip is_set c = ground arith

threshold_lem :
    (threshold : ℤ) (is_set : Bool) (c : Config)
    → with_clean_threshold_bytes threshold is_set c ≡ record c {
      clean = record { threshold_bytes = if is_set then threshold else c.clean.threshold_bytes };
    }
unfolding with_clean_threshold_bytes
threshold_lem threshold is_set c = ground arith

flagged-eq-asked : (f : CreateFlags) (c : Config) → flagged f c ≡ asked f c
unfolding flagged
flagged-eq-asked f c =
    simp (registries_lem, limit_lem, exclude_lem, skip_lem, threshold_lem, clean_lem, mount_lem)

-- The command `create` works with the configuration that its flags ask for, or fails; it fails
-- exactly if the disk limit or the threshold of that configuration is negative.
pub create_config_lem :
    (f : CreateFlags) (c d : Config)
    → (create_config f c ≡ ok d
        → (d ≡ asked f c)
          × (pos 0 ≤ℤ d.create.disk_limit_size_bytes)
          × (pos 0 ≤ℤ d.clean.threshold_bytes))
      × (succeeded (create_config f c) ≡ (
          not (ltb_ℤ (asked f c).create.disk_limit_size_bytes (pos 0))
          && not (ltb_ℤ (asked f c).clean.threshold_bytes (pos 0))))
unfolding create_config build
create_config_lem f c d = ground (arith, flagged-eq-asked f c)
