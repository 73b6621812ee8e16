-- ===== src/Userns/Laws.antt =====
-- When a process in another user namespace goes on.
use groot_btrfs.Base.{
  ◌≡◌, refl, sym, ap, ◌∙◌, Bool, true, false, not, ◌&&◌, ◌||◌, List, [], ◌∷◌, arith, inl, inr,
  Bool-cases,
}
use groot_btrfs.Base.Int.{ℤ}
use groot_btrfs.Base.Str.{Str, codes}
use groot_btrfs.Base.Effect.{M, ⊤, Result-cases, succeeded, ◌>>◌}
use groot_btrfs.Groot.{IdMappingSpec, IdMappings}
use groot_btrfs.Puller.{UnpackSpec}
use groot_btrfs.Userns.{
  Child, is_empty, set_uids, set_gids, set_id_mappings, release, await_output, unpack_mapped,
  await_end, map_and_signal, reexec_destroy,
}

-- Whether a process was let go on, and the ids that were mapped.
pub record Progress : Type 0 where
  pub signalled : Bool
  pub uids : Bool
  pub gids : Bool

module _ {W Stream Pipe : Type 0} (view : W → Progress) (c : Child W Stream Pipe) where
  -- A call does what it is for, or fails and does nothing.
  pub record IsChild : Type 0 where
    pub pipe_view : (w : W) → view (c.pipe w).1 ≡ view w
    pub start_view :
        (w : W) (words : List Str) (pipe : Pipe) → view (c.start words pipe w).1 ≡ view w
    pub start_on_view :
        (w : W) (words : List Str) (fresh : Bool) (stream : Stream) (pipe : Pipe)
        → view (c.start_on words fresh stream pipe w).1 ≡ view w
    pub map_uids_view :
        (w : W) (pid : ℤ) (ms : List IdMappingSpec)
        → view (c.map_uids pid ms w).1
          ≡ record (view w) { uids = succeeded (c.map_uids pid ms w).0 || (view w).uids }
    pub map_gids_view :
        (w : W) (pid : ℤ) (ms : List IdMappingSpec)
        → view (c.map_gids pid ms w).1
          ≡ record (view w) { gids = succeeded (c.map_gids pid ms w).0 || (view w).gids }
    pub signal_view :
        (w : W) (pipe : Pipe)
        → view (c.signal pipe w).1
          ≡ record (view w) { signalled = succeeded (c.signal pipe w).0 || (view w).signalled }
    pub close_view : (w : W) (pipe : Pipe) → view (c.close_pipe pipe w).1 ≡ view w
    pub wait_view : (w : W) (pid : ℤ) → view (c.wait pid w).1 ≡ view w

  module _ (C : IsChild) where
    -- A call in which no process is let go on, and no mapping is taken back.
    view-set_uids :
        (spec : UnpackSpec Stream) (pid : ℤ) (w : W)
        → ((view (set_uids c spec pid w).1).signalled ≡ (view w).signalled)
          × (succeeded (set_uids c spec pid w).0 ≡ true
              → (is_empty spec.uid_mappings || (view (set_uids c spec pid w).1).uids) ≡ true)
    unfolding set_uids
    view-set_uids spec pid w = elim (Bool-cases (is_empty spec.uid_mappings)) [
      | inl none ↦ rw none (refl, λ h. refl)
      | inr some ↦ elim (Result-cases (c.map_uids pid spec.uid_mappings w).0) [
        | inl (_, fine) ↦ rw some (ground (arith, fine, C.map_uids_view w pid spec.uid_mappings))
        | inr (x, failed) ↦
            rw some (ground (arith, failed, C.map_uids_view w pid spec.uid_mappings))
      ]
    ]

    view-set_gids :
        (spec : UnpackSpec Stream) (pid : ℤ) (w : W)
        → ((view (set_gids c spec pid w).1).signalled ≡ (view w).signalled)
          × ((view (set_gids c spec pid w).1).uids ≡ (view w).uids)
          × (succeeded (set_gids c spec pid w).0 ≡ true
              → (is_empty spec.gid_mappings || (view (set_gids c spec pid w).1).gids) ≡ true)
    unfolding set_gids
    view-set_gids spec pid w = elim (Bool-cases (is_empty spec.gid_mappings)) [
      | inl none ↦ rw none (refl, refl, λ h. refl)
      | inr some ↦ elim (Result-cases (c.map_gids pid spec.gid_mappings w).0) [
        | inl (_, fine) ↦ rw some (ground (arith, fine, C.map_gids_view w pid spec.gid_mappings))
        | inr (x, failed) ↦
            rw some (ground (arith, failed, C.map_gids_view w pid spec.gid_mappings))
      ]
    ]

    -- The ids that need a mapping have one.
    abbrev pub are_mapped : UnpackSpec Stream → Progress → Bool
    are_mapped spec v =
        (is_empty spec.uid_mappings || v.uids) && (is_empty spec.gid_mappings || v.gids)

    view-set_id_mappings :
        (spec : UnpackSpec Stream) (pid : ℤ) (w : W)
        → ((view (set_id_mappings c spec pid w).1).signalled ≡ (view w).signalled)
          × (succeeded (set_id_mappings c spec pid w).0 ≡ true
              → are_mapped spec (view (set_id_mappings c spec pid w).1) ≡ true)
    unfolding set_id_mappings
    view-set_id_mappings spec pid w =
        let (r1, w1) = set_uids c spec pid w in
        let (same1, mapped1) = view-set_uids spec pid w in
        let (same2, kept, mapped2) = view-set_gids spec pid w1 in
        elim (Result-cases r1) [
          | inr (x, failed) ↦ ground (arith, failed, same1)
          | inl (_, fine) ↦
              ground (arith, fine, same1, same2, kept, mapped1 (ap succeeded fine), mapped2)
        ]

    view-release :
        (spec : UnpackSpec Stream) (pipe : Pipe) (pid : ℤ) (w : W)
        → (view w).signalled ≡ false
        → (view (release c spec pipe pid w).1).signalled ≡ true
        → are_mapped spec (view (release c spec pipe pid w).1) ≡ true
    unfolding release
    view-release spec pipe pid w before after =
        let (r1, w1) = set_id_mappings c spec pid w in
        let (same, mapped) = view-set_id_mappings spec pid w in
        elim (Result-cases r1) [
          | inr (x, failed) ↦
              absurd (ground (arith, failed, same, C.close_view w1 pipe, before, after))
          | inl (_, fine) ↦
              let e : (release c spec pipe pid w).1 ≡ (c.signal pipe w1).1 = ground (arith, fine) in
              ap (λ v. are_mapped spec (view v)) e
              ∙ ap (are_mapped spec) (C.signal_view w1 pipe)
              ∙ mapped (ap succeeded fine)
        ]

    view-await_output : (pid : ℤ) (w : W) → view (await_output c pid w).1 ≡ view w
    unfolding await_output
    view-await_output pid w = ground (arith, C.wait_view w pid)

    -- A last call that changes nothing.
    then_view :
        {A : Type 0} (m : M W ⊤) (f : M W A)
        → ((v : W) → view (f v).1 ≡ view v)
        → (w : W) → view ((m >> f) w).1 ≡ view (m w).1
    then_view m f still w = elim (Result-cases (m w).0) [
      | inr (x, failed) ↦ ground (arith, failed)
      | inl (_, fine) ↦ ground (arith, fine, still (m w).1)
    ]

    -- Where `Unpack` lets its process go on, every kind of ids for which there are mappings has been
    -- mapped before.
    pub unpack_mapped_lem :
        (spec : UnpackSpec Stream) (w : W)
        → (view w).signalled ≡ false
        → (view (unpack_mapped c spec w).1).signalled ≡ true
        → are_mapped spec (view (unpack_mapped c spec w).1) ≡ true
    unfolding unpack_mapped
    unpack_mapped_lem spec w before after =
        let (r1, w1) = c.pipe w in
        elim (Result-cases r1) [
          | inr (x, failed) ↦ absurd (ground (arith, failed, C.pipe_view w, before, after))
          | inl (pipe, piped) ↦ elim (Result-cases c.strategy) [
            | inr (x, failed) ↦ absurd (ground (arith, piped, failed, C.pipe_view w, before, after))
            | inl (json, marshalled) ↦
                let words = codes "unpack" ∷ spec.target_path ∷ spec.base_directory ∷ json ∷ [] in
                let fresh = not (is_empty spec.uid_mappings) || not (is_empty spec.gid_mappings) in
                let (r2, w2) = c.start_on words fresh spec.stream pipe w1 in
                let same : view w2 ≡ view w =
                  C.start_on_view w1 words fresh spec.stream pipe ∙ C.pipe_view w in
                elim (Result-cases r2) [
                  | inr (x, failed) ↦
                      absurd (ground (arith, piped, marshalled, failed, same, before, after))
                  | inl (pid, started) ↦
                      let e : unpack_mapped c spec w
                          ≡ (release c spec pipe pid >> await_output c pid) w2 =
                        ground (arith, piped, marshalled, started) in
                      let ends : view (unpack_mapped c spec w).1
                          ≡ view (release c spec pipe pid w2).1 =
                        ap (λ o. view o.1) e
                        ∙ then_view (release c spec pipe pid) (await_output c pid)
                            (view-await_output pid) w2 in
                      ap (are_mapped spec) ends
                      ∙ view-release spec pipe pid w2 (ap (λ v. v.signalled) same ∙ before)
                          (ap (λ v. v.signalled) (sym ends) ∙ after)
                ]
          ]
        ]

    view-await_end : (text : Str) (pid : ℤ) (w : W) → view (await_end c text pid w).1 ≡ view w
    unfolding await_end
    view-await_end text pid w = ground (arith, C.wait_view w pid)

    view-map_and_signal :
        (mappings : IdMappings) (pipe : Pipe) (pid : ℤ) (w : W)
        → (view w).signalled ≡ false
        → (view (map_and_signal c mappings pipe pid w).1).signalled ≡ true
        → let v = view (map_and_signal c mappings pipe pid w).1 in (v.uids && v.gids) ≡ true
    unfolding map_and_signal
    view-map_and_signal mappings pipe pid w before after =
        let (r1, w1) = c.map_uids pid mappings.uid_mappings w in
        let first = C.map_uids_view w pid mappings.uid_mappings in
        elim (Result-cases r1) [
          | inr (x, failed) ↦ absurd (ground (arith, failed, first, before, after))
          | inl (_, fine1) ↦
              let (r2, w2) = c.map_gids pid mappings.gid_mappings w1 in
              let second = C.map_gids_view w1 pid mappings.gid_mappings in
              elim (Result-cases r2) [
                | inr (x, failed) ↦
                    absurd (ground (arith, fine1, failed, first, second, before, after))
                | inl (_, fine2) ↦
                    let e : (map_and_signal c mappings pipe pid w).1 ≡ (c.signal pipe w2).1 =
                      ground (arith, fine1, fine2) in
                    ap (λ u. (view u).uids && (view u).gids) e
                    ∙ ground (arith, fine1, fine2, first, second, C.signal_view w2 pipe)
              ]
        ]

    -- Where the process that destroys a volume or an image is let go on, its user ids and its group
    -- ids have been mapped before.
    pub reexec_destroy_mapped :
        (mappings : IdMappings) (words : List Str) (start_text wait_text : Str) (w : W)
        → (view w).signalled ≡ false
        → (view (reexec_destroy c mappings words start_text wait_text w).1).signalled ≡ true
        → let v = view (reexec_destroy c mappings words start_text wait_text w).1 in
          (v.uids && v.gids) ≡ true
    unfolding reexec_destroy
    reexec_destroy_mapped mappings words start_text wait_text w before after =
        let (r1, w1) = c.pipe w in
        elim (Result-cases r1) [
          | inr (x, failed) ↦ absurd (ground (arith, failed, C.pipe_view w, before, after))
          | inl (pipe, piped) ↦
              let (r2, w2) = c.start (codes "with-caps-in-userns" ∷ words) pipe w1 in
              let same : view w2 ≡ view w =
                C.start_view w1 (codes "with-caps-in-userns" ∷ words) pipe ∙ C.pipe_view w in
              elim (Result-cases r2) [
                | inr (x, failed) ↦ absurd (ground (arith, piped, failed, same, before, after))
                | inl (pid, started) ↦
                    let finish = map_and_signal c mappings pipe pid >> await_end c wait_text pid in
                    let e : reexec_destroy c mappings words start_text wait_text w ≡ finish w2 =
                      ground (arith, piped, started) in
                    let ends : view (finish w2).1 ≡ view (map_and_signal c mappings pipe pid w2).1 =
                      then_view (map_and_signal c mappings pipe pid) (await_end c wait_text pid)
                        (view-await_end wait_text pid) w2 in
                    let whole = ap (λ o. view o.1) e ∙ ends in
                    ap (λ v. v.uids && v.gids) whole
                    ∙ view-map_and_signal mappings pipe pid w2 (ap (λ v. v.signalled) same ∙ before)
                        (ap (λ v. v.signalled) (sym whole) ∙ after)
              ]
        ]
