-- ===== src/Groot/Creator/Laws.antt =====
-- `Create`: the image, its dependencies and the lock.
use groot_btrfs.Base.{◌≡◌, ap, true, false, ◌||◌, List, arith, inl, inr, some, Bool-cases}
use groot_btrfs.Base.Int.{ℤ}
use groot_btrfs.Base.Str.{Str, codes, contains_str}
use groot_btrfs.Base.FilePath.Laws.{IsName}
use groot_btrfs.Base.Effect.{ok, Result-cases, succeeded}
use groot_btrfs.Groot.{BaseImageInfo, ImageInfo, CreateSpec}
use groot_btrfs.Groot.Creator.{
  Creator, image_reference, chain_ids, parse_owner, base_image_spec, image_spec, register_image,
  create_locked, clean_on_create, create_checked, create, global_lock_key,
}
use groot_btrfs.Groot.Creator.View.{View, IsLawful}

-- The image is there, with its dependencies registered.
pub record IsCreated (id : Str) (ids : List Str) (t : View) : Type 0 where
  pub image : t.image id ≡ true
  pub deps : t.deps (image_reference id) ≡ some ids

module _ {W : Type 0} (view : W → View) (c : Creator W) (L : IsLawful view c) where
  module _ (spec : CreateSpec) (info : BaseImageInfo) (w : W) where
    abbrev ids : List Str
    ids = chain_ids info.layer_infos

    abbrev w1 : W
    w1 = (c.dependency_manager.register (image_reference spec.id) ids w).1

    register_image-IsCreated :
        (image out : ImageInfo)
        → (view w).image spec.id ≡ true
        → (register_image c spec info image w).0 ≡ ok out
        → IsCreated spec.id ids (view (register_image c spec info image w).1)
    unfolding register_image
    register_image-IsCreated image out there e =
        elim (Result-cases (c.dependency_manager.register (image_reference spec.id) ids w).0) [
          | inr (x, failed) ↦ ground (arith, failed)
          | inl (_, fine) ↦ record {
            image = ground (
              arith,
              fine,
              L.register_image w (image_reference spec.id) ids,
              ap (λ f. f spec.id) (L.register_image w (image_reference spec.id) ids),
            );
            deps = ground (arith, fine, L.register_deps w (image_reference spec.id) ids);
          }
        ]

    register_image_held :
        (image : ImageInfo) → (view (register_image c spec info image w).1).held ≡ (view w).held
    unfolding register_image
    register_image_held image =
        ground (arith, L.register_held w (image_reference spec.id) ids, L.destroy_held w1 spec.id)

  module _ (spec : CreateSpec) (owner : ℤ × ℤ) (info : BaseImageInfo) (w : W) where
    abbrev p1 : W
    p1 = (c.base_image_puller.pull info (base_image_spec spec owner) w).1

    abbrev p2 : W
    p2 = (c.image_cloner.create (image_spec spec owner info) p1).1

    create_locked-IsCreated :
        (out : ImageInfo)
        → IsName spec.id
        → (create_locked c spec owner info w).0 ≡ ok out
        → IsCreated spec.id
            (chain_ids info.layer_infos)
            (view (create_locked c spec owner info w).1)
    unfolding create_locked
    create_locked-IsCreated out plain e =
        elim (Result-cases (c.base_image_puller.pull info (base_image_spec spec owner) w).0) [
          | inr (x, failed) ↦ ground (arith, failed)
          | inl (_, pulled) ↦
              elim (Result-cases (c.image_cloner.create (image_spec spec owner info) p1).0) [
                | inr (x, failed) ↦ ground (arith, pulled, failed)
                | inl (image, cloned) ↦
                    let done =
                      register_image-IsCreated spec info p2 image out
                        (L.create_image p1 (image_spec spec owner info) plain (ap succeeded cloned))
                        (ground (arith, pulled, cloned)) in
                    record {
                      image = ground (arith, pulled, cloned, done.image);
                      deps = ground (arith, pulled, cloned, done.deps);
                    }
              ]
        ]

    create_locked_held : (view (create_locked c spec owner info w).1).held ≡ (view w).held
    unfolding create_locked
    create_locked_held =
        let pulled_held = L.pull_held w info (base_image_spec spec owner) in
        elim (Result-cases (c.base_image_puller.pull info (base_image_spec spec owner) w).0) [
          | inr (x, failed) ↦ ground (arith, failed, pulled_held)
          | inl (_, pulled) ↦
              elim (Result-cases (c.image_cloner.create (image_spec spec owner info) p1).0) [
                | inr (x, failed) ↦ ground (
                  arith,
                  pulled,
                  failed,
                  pulled_held,
                  L.create_held p1 (image_spec spec owner info),
                )
                | inl (image, cloned) ↦ ground (
                  arith,
                  pulled,
                  cloned,
                  pulled_held,
                  L.create_held p1 (image_spec spec owner info),
                  register_image_held spec info p2 image,
                )
              ]
        ]

  clean_on_create_held :
      (spec : CreateSpec) (info : BaseImageInfo) (w : W)
      → (view (clean_on_create c spec info w).1).held ≡ (view w).held
  unfolding clean_on_create
  clean_on_create_held spec info w =
      ground
        (arith, L.clean_held w spec.clean_on_create_threshold_bytes (chain_ids info.layer_infos))

  module _ (spec : CreateSpec) (owner : ℤ × ℤ) (w : W) where
    create_checked-IsCreated :
        (out : ImageInfo)
        → IsName spec.id
        → (create_checked c spec owner w).0 ≡ ok out
        → (info : BaseImageInfo) × ((c.base_image_puller.fetch_base_image_info
              (base_image_spec spec owner)
              w).0
            ≡ ok info)
          × IsCreated spec.id (chain_ids info.layer_infos) (view (create_checked c spec owner w).1)
    unfolding create_checked
    create_checked-IsCreated out plain e =
        let (r1, q1) = c.base_image_puller.fetch_base_image_info (base_image_spec spec owner) w in
        elim (Result-cases r1) [
          | inr (x, failed) ↦ absurd (ground (arith, failed))
          | inl (info, fetched) ↦
              let (r2, q2) = clean_on_create c spec info q1 in
              elim (Result-cases r2) [
                | inr (x, failed) ↦ absurd (ground (arith, fetched, failed))
                | inl (_, cleaned) ↦
                    let (r3, q3) = c.locksmith.lock global_lock_key q2 in
                    elim (Result-cases r3) [
                      | inr (x, failed) ↦ absurd (ground (arith, fetched, cleaned, failed))
                      | inl (file, locked) ↦
                          let q4 = (create_locked c spec owner info q3).1 in
                          let done =
                            create_locked-IsCreated spec owner info q3 out plain
                              (ground (arith, fetched, cleaned, locked)) in
                          (
                            info,
                            fetched,
                            record {
                              image = ground (
                                arith,
                                fetched,
                                cleaned,
                                locked,
                                done.image,
                                ap (λ f. f spec.id) (L.unlock_image q4 file),
                              );
                              deps = ground (
                                arith,
                                fetched,
                                cleaned,
                                locked,
                                done.deps,
                                ap (λ f. f (image_reference spec.id)) (L.unlock_deps q4 file),
                              );
                            },
                          )
                    ]
              ]
        ]

    create_checked_held : (view (create_checked c spec owner w).1).held ≡ (view w).held
    unfolding create_checked
    create_checked_held =
        let (r1, q1) = c.base_image_puller.fetch_base_image_info (base_image_spec spec owner) w in
        let same1 = L.fetch_held w (base_image_spec spec owner) in
        elim (Result-cases r1) [
          | inr (x, failed) ↦ ground (arith, failed, same1)
          | inl (info, fetched) ↦
              let (r2, q2) = clean_on_create c spec info q1 in
              let same2 = clean_on_create_held spec info q1 in
              elim (Result-cases r2) [
                | inr (x, failed) ↦ ground (arith, fetched, failed, same1, same2)
                | inl (_, cleaned) ↦
                    let (r3, q3) = c.locksmith.lock global_lock_key q2 in
                    let held3 = L.lock_held q2 global_lock_key in
                    elim (Result-cases r3) [
                      | inr (x, failed) ↦
                          ground (arith, fetched, cleaned, failed, same1, same2, held3)
                      | inl (file, locked) ↦ ground (
                        arith,
                        fetched,
                        cleaned,
                        locked,
                        same1,
                        same2,
                        held3,
                        create_locked_held spec owner info q3,
                        L.unlock_held (create_locked c spec owner info q3).1 file,
                      )
                    ]
              ]
        ]

  module _ (getuid getgid : ℤ) (spec : CreateSpec) (w : W) where
    abbrev owners : ℤ × ℤ
    owners = parse_owner getuid getgid spec.uid_mappings spec.gid_mappings

    abbrev e1 : W
    e1 = (c.image_cloner.exists spec.id w).1

    -- Whatever fails, `Create` releases the lock that it takes.
    pub create_held : (view (create c getuid getgid spec w).1).held ≡ (view w).held
    unfolding create
    create_held = ground (arith, L.exists_view w spec.id, create_checked_held spec owners e1)

    -- After a successful `Create` of an image with a plain name the image is there, where none of that id was before, its id has no
    -- slash, and its reference is registered with the chain ids of the base image that was fetched.
    pub create-IsCreated :
        (out : ImageInfo)
        → IsName spec.id
        → (create c getuid getgid spec w).0 ≡ ok out
        → (info : BaseImageInfo) × ((c.base_image_puller.fetch_base_image_info
              (base_image_spec spec (parse_owner getuid getgid spec.uid_mappings spec.gid_mappings))
              (c.image_cloner.exists spec.id w).1).0
            ≡ ok info)
          × IsCreated spec.id (chain_ids info.layer_infos) (view (create c getuid getgid spec w).1)
          × ((view w).image spec.id ≡ false)
          × (contains_str spec.id (codes "/") ≡ false)
    unfolding create
    create-IsCreated out plain e = elim (Bool-cases (contains_str spec.id (codes "/"))) [
      | inl slash ↦ absurd (ground (arith, slash))
      | inr clear ↦ elim (Result-cases (c.image_cloner.exists spec.id w).0) [
        | inr (x, failed) ↦ absurd (ground (arith, clear, failed))
        | inl (found, seen) ↦ elim (Bool-cases found) [
          | inl there ↦ absurd (ground (arith, clear, seen, there))
          | inr absent ↦
              let (info, fetched, done) =
                create_checked-IsCreated spec owners e1 out plain
                  (ground (arith, clear, seen, absent)) in
              (
                info,
                fetched,
                record {
                  image = ground (arith, clear, seen, absent, done.image);
                  deps = ground (arith, clear, seen, absent, done.deps);
                },
                ground (arith, absent, L.exists_image w spec.id found plain seen),
                clear,
              )
        ]
      ]
    ]

    -- An id with a slash or of an image that is there is refused, and nothing changes.
    pub create_refused :
        (contains_str spec.id (codes "/") || (view w).image spec.id) ≡ true
        → (succeeded (create c getuid getgid spec w).0 ≡ false)
          × (view (create c getuid getgid spec w).1 ≡ view w)
    unfolding create
    create_refused bad = elim (Bool-cases (contains_str spec.id (codes "/"))) [
      | inl slash ↦ ground (arith, slash)
      | inr clear ↦
          let there : (view w).image spec.id ≡ true = ground (arith, clear, bad) in
          elim (Result-cases (c.image_cloner.exists spec.id w).0) [
            | inr (x, failed) ↦ ground (arith, clear, failed, L.exists_view w spec.id)
            | inl (found, seen) ↦ ground (
              arith,
              clear,
              seen,
              there,
              L.exists_view w spec.id,
              L.exists_image w spec.id found (L.image_name w spec.id there) seen,
            )
          ]
    ]
