-- ===== src/Tests/Userns.antt =====
-- Processes in another user namespace, over a world that keeps what was done.
use groot_btrfs.Base.{◌≡◌, refl, true, false, ◌&&◌, List, [], ◌∷◌}
use groot_btrfs.Base.Int.{pos}
use groot_btrfs.Base.Str.{Str, codes}
use groot_btrfs.Base.Effect.{ok}
use groot_btrfs.Groot.{IdMappingSpec, IdMappings}
use groot_btrfs.Puller.{UnpackSpec}
use groot_btrfs.Userns.{Child, unpack_mapped, reexec_destroy}
use groot_btrfs.Userns.Laws.{
  Progress, IsChild, are_mapped, unpack_mapped_lem, reexec_destroy_mapped,
}

unfoldable child : Child Progress Str Unit
child = record {
  getuid = pos 1000;
  pipe = λ w. (ok tt, w);
  start = λ words pipe w. (ok (pos 42), w);
  start_on = λ words fresh stream pipe w. (ok (pos 42), w);
  map_uids = λ pid ms w. (ok tt, record w { uids = true });
  map_gids = λ pid ms w. (ok tt, record w { gids = true });
  signal = λ pipe w. (ok tt, record w { signalled = true });
  close_pipe = λ pipe w. (ok tt, w);
  wait = λ pid w. (record { stdout = []; stderr = []; combined = []; ended = ok tt }, w);
  sprintf = λ format. format;
  strategy = ok (codes "{}");
  decode_output = λ text. ok (record { bytes_written = pos 10; opaque_whiteouts = [] });
}

child-IsChild : IsChild (λ w. w) child
unfolding child
child-IsChild = record {
  pipe_view = λ w. refl;
  start_view = λ w words pipe. refl;
  start_on_view = λ w words fresh stream pipe. refl;
  map_uids_view = λ w pid ms. refl;
  map_gids_view = λ w pid ms. refl;
  signal_view = λ w pipe. refl;
  close_view = λ w pipe. refl;
  wait_view = λ w pid. refl;
}

abbrev nothing : Progress
nothing = record { signalled = false; uids = false; gids = false }

abbrev root : List IdMappingSpec
root = record { host_id = pos 1000; namespace_id = pos 0; size = pos 1 } ∷ []

abbrev spec : UnpackSpec Str
spec = record {
  stream = codes "text";
  target_path = codes "/v";
  uid_mappings = root;
  gid_mappings = [];
  base_directory = [];
}

unpack_mapped_lem_example :
    are_mapped (λ w. w) child child-IsChild spec (unpack_mapped child spec nothing).1 ≡ true
unfolding unpack_mapped child
unpack_mapped_lem_example = unpack_mapped_lem (λ w. w) child child-IsChild spec nothing refl refl

abbrev both : IdMappings
both = record { uid_mappings = root; gid_mappings = root }

reexec_destroy_mapped_example :
    let v = (reexec_destroy child both (codes "destroy-volume" ∷ []) [] [] nothing).1 in
    (v.uids && v.gids) ≡ true
unfolding reexec_destroy child
reexec_destroy_mapped_example =
    reexec_destroy_mapped (λ w. w) child child-IsChild both (codes "destroy-volume" ∷ []) [] []
      nothing refl refl
