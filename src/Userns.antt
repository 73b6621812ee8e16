-- ===== src/Userns.antt =====
-- Work in another user namespace: base_image_puller/unpacker/ns_id_mapper_unpacker.go and
-- store/filesystems/namespaced/driver.go start the program again, map the ids of the new process, and
-- only then let it go on, by a byte on its control pipe.
pub mod Laws
use groot_btrfs.Base.{ℕ, Bool, true, false, not, ◌&&◌, ◌||◌, List, [], ◌∷◌, ◌++◌, if◌then◌else◌}
use groot_btrfs.Base.Int.{ℤ, pos, eqb_ℤ}
use groot_btrfs.Base.Str.{Str, codes}
use groot_btrfs.Base.Commands.{Output}
use groot_btrfs.Base.Effect.{
  M, ⊤, Error, Result, ok, err, wrap, message, pure, lift, ◌>>=◌, ◌>>◌, wrapping,
}
use groot_btrfs.Groot.{IdMappingSpec, IdMappings, MountInfo, VolumeStats}
use groot_btrfs.Puller.{UnpackSpec, UnpackOutput, VolumeDriver, VolumeMeta}
use groot_btrfs.Store.Cloner.{ImageDriver, ImageDriverSpec}

-- The processes and their control pipes. `start` runs the program again with arguments, in a new user
-- namespace or not; `start_on` gives it a stream to read, too.
pub record Child (W Stream Pipe : Type 0) : Type 0 where
  pub getuid : ℤ
  pub pipe : M W Pipe
  pub start : List Str → Pipe → M W ℤ
  pub start_on : List Str → Bool → Stream → Pipe → M W ℤ
  pub map_uids : ℤ → List IdMappingSpec → M W ⊤
  pub map_gids : ℤ → List IdMappingSpec → M W ⊤
  pub signal : Pipe → M W ⊤
  pub close_pipe : Pipe → M W ⊤
  pub wait : ℤ → W → Output × W
  -- `fmt.Sprintf` of a format with no arguments
  pub sprintf : Str → Str
  pub strategy : Result Str
  pub decode_output : Str → Result UnpackOutput

abbrev pub is_empty : List IdMappingSpec → Bool
is_empty [] = true
is_empty (m ∷ ms) = false

module _ {W Stream Pipe : Type 0} (c : Child W Stream Pipe) where
  unfoldable pub set_uids : UnpackSpec Stream → ℤ → M W ⊤
  set_uids spec pid =
      if is_empty spec.uid_mappings
      then pure tt
      else wrapping (codes "setting uid mapping") (c.map_uids pid spec.uid_mappings)

  unfoldable pub set_gids : UnpackSpec Stream → ℤ → M W ⊤
  set_gids spec pid =
      if is_empty spec.gid_mappings
      then pure tt
      else wrapping (codes "setting gid mapping") (c.map_gids pid spec.gid_mappings)

  unfoldable pub set_id_mappings : UnpackSpec Stream → ℤ → M W ⊤
  unfolding set_uids set_gids
  set_id_mappings spec pid = set_uids spec pid >> set_gids spec pid

  -- The process goes on, or its pipe is closed.
  unfoldable pub release : UnpackSpec Stream → Pipe → ℤ → M W ⊤
  unfolding set_id_mappings
  release spec pipe pid w =
      let (r, w1) = set_id_mappings spec pid w in
      elim r [
        | err e ↦ let (_, w2) = c.close_pipe pipe w1 in (err e, w2)
        | ok _ ↦ wrapping (codes "writing to tar control pipe") (c.signal pipe) w1
      ]

  unfoldable pub await_output : ℤ → M W UnpackOutput
  unfolding message
  await_output pid w =
      let (output, w1) = c.wait pid w in
      elim output.ended [
        | err _ ↦ (err (Error.new (c.sprintf output.stdout)), w1)
        | ok _ ↦ elim (c.decode_output output.stdout) [
          | err e ↦ (err (wrap e (codes "invalid unpack output (" ++ (message e ++ codes ")"))), w1)
          | ok out ↦ (ok out, w1)
        ]
      ]

  -- `NSIdMapperUnpacker.Unpack`
  unfoldable pub unpack_mapped : UnpackSpec Stream → M W UnpackOutput
  unfolding release await_output
  unpack_mapped spec = do
    pipe ← wrapping (codes "creating tar control pipe") c.pipe
    strategy_json ← wrapping (codes "unmarshal unpack strategy") (lift c.strategy)
    pid ← wrapping (codes "starting unpack command") (
        c.start_on (codes "unpack" ∷ spec.target_path ∷ spec.base_directory ∷ strategy_json ∷ [])
          (not (is_empty spec.uid_mappings) || not (is_empty spec.gid_mappings)) spec.stream pipe)
    release spec pipe pid
    await_output pid

  -- The process that destroys a volume or an image: `wait_message` tells which.
  unfoldable pub await_end : Str → ℤ → M W ⊤
  await_end wait_message pid w =
      let (output, w1) = c.wait pid w in
      elim output.ended [
        | err e ↦ (err (wrap e (wait_message ++ output.stdout)), w1)
        | ok _ ↦ (ok tt, w1)
      ]

  -- A mapping that fails leaves the process waiting.
  unfoldable pub map_and_signal : IdMappings → Pipe → ℤ → M W ⊤
  map_and_signal mappings pipe pid = do
    wrapping (codes "mapping uids") (c.map_uids pid mappings.uid_mappings)
    wrapping (codes "mapping gids") (c.map_gids pid mappings.gid_mappings)
    wrapping (codes "writing to control pipe") (c.signal pipe)

  unfoldable pub reexec_destroy : IdMappings → List Str → Str → Str → M W ⊤
  unfolding map_and_signal await_end
  reexec_destroy mappings words start_message wait_message = do
    pipe ← wrapping (codes "creating control pipe") c.pipe
    pid ← wrapping start_message (c.start (codes "with-caps-in-userns" ∷ words) pipe)
    map_and_signal mappings pipe pid
    await_end wait_message pid

-- The driver `namespaced.Driver` around another one; `json` is what that one marshals to.
pub record NamespacedDriver (W Stream Pipe : Type 0) : Type 0 where
  pub volumes : VolumeDriver W
  pub images : ImageDriver W
  pub id_mappings : IdMappings
  pub child : Child W Stream Pipe
  pub json : Str

module _ {W Stream Pipe : Type 0} (n : NamespacedDriver W Stream Pipe) where
  -- Root, and a driver without mappings, need no other namespace.
  unfoldable pub stays : Bool
  stays =
      (is_empty n.id_mappings.uid_mappings && is_empty n.id_mappings.gid_mappings)
      || eqb_ℤ n.child.getuid (pos 0)

  unfoldable pub destroy_volume : Str → M W ⊤
  unfolding stays reexec_destroy
  destroy_volume id =
      if stays
      then n.volumes.destroy_volume id
      else reexec_destroy n.child n.id_mappings (codes "destroy-volume" ∷ n.json ∷ id ∷ [])
          (codes "reexecing destroy volume") (codes "waiting for destroy volume rexec: ")

  unfoldable pub destroy_image : Str → M W ⊤
  unfolding stays reexec_destroy
  destroy_image path =
      if stays
      then n.images.destroy_image path
      else reexec_destroy n.child n.id_mappings (codes "destroy-image" ∷ n.json ∷ path ∷ [])
          (codes "reexecing destroy image") (codes "waiting for destroy image rexec: ")

  -- All else is passed on to the inner driver.
  abbrev pub volume_driver : VolumeDriver W
  volume_driver = record n.volumes { destroy_volume = destroy_volume }

  abbrev pub image_driver : ImageDriver W
  image_driver = record n.images { destroy_image = destroy_image }
