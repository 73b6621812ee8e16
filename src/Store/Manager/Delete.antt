-- ===== src/Store/Manager/Delete.antt =====
-- `DeleteStore`: what is left, and the lock.
use groot_btrfs.Base.{
  ◌≡◌, refl, ap, ◌∙◌, subst, All, map, Bool, true, not, List, [], ◌∷◌, arith, ℕ, suc, ◌-◌, inl, inr,
  Bool-cases, if◌then◌else◌, ◌++◌,
}
use groot_btrfs.Base.Str.{Str, codes}
use groot_btrfs.Base.FilePath.{join}
use groot_btrfs.Base.FilePath.Laws.{IsName}
use groot_btrfs.Base.Effect.{M, ⊤, ok, Result-cases, succeeded, for_each, wrapping}
use groot_btrfs.Groot.{Locksmith, File}
use groot_btrfs.Groot.Creator.{global_lock_key}
use groot_btrfs.Store.{image_dir_name, volumes_dir_name}
use groot_btrfs.Store.Manager.{Manager, missing, images, volumes, delete_locked, delete_store}

-- Whether the store's directory is there, and how many locks are held.
pub record View : Type 0 where
  pub there : Bool
  pub held : ℕ

-- The path of an image of the store.
abbrev pub image_path : {W : Type 0} → Manager W → Str → Str
image_path m name = join (join (m.store_path ∷ image_dir_name ∷ []) ∷ name ∷ [])

-- The entries of a directory have plain names. An image or a volume with such a name is destroyed
-- inside of the store's directory; a removal of the directory that fails leaves it there.
pub record IsStore {W : Type 0} (view : W → View) (m : Manager W) (locks : Locksmith W)
    : Type 0 where
  pub stat_same : (w : W) (p : Str) → view (m.os.stat p w).1 ≡ view w
  pub stat_missing : (w : W) → missing (m.os.stat m.store_path w).0 ≡ not (view w).there
  pub read_dir_same : (w : W) (p : Str) → view (m.os.read_dir p w).1 ≡ view w
  pub read_dir_names :
      (w : W) (p : Str) (names : List Str) → (m.os.read_dir p w).0 ≡ ok names → All IsName names
  pub image_same :
      (w : W) (name : Str)
      → IsName name
      → view (m.image_driver.destroy_image (image_path m name) w).1 ≡ view w
  pub volume_same :
      (w : W) (id : Str) → IsName id → view (m.volume_driver.destroy_volume id w).1 ≡ view w
  pub remove_there :
      (w : W)
      → (view (m.os.remove_all m.store_path w).1).there
        ≡ not (succeeded (m.os.remove_all m.store_path w).0)
  pub remove_held : (w : W) → (view (m.os.remove_all m.store_path w).1).held ≡ (view w).held
  pub lock_there : (w : W) (key : Str) → (view (locks.lock key w).1).there ≡ (view w).there
  pub lock_held :
      (w : W) (key : Str)
      → (view (locks.lock key w).1).held
        ≡ (if succeeded (locks.lock key w).0 then suc (view w).held else (view w).held)
  pub unlock_there : (w : W) (file : File) → (view (locks.unlock file w).1).there ≡ (view w).there
  pub unlock_held : (w : W) (file : File) → (view (locks.unlock file w).1).held ≡ (view w).held - 1

-- What a call does to the store's directory: it is gone exactly if the call succeeds.
record Deletes (done : Bool) (s t : View) : Type 0 where
  there : t.there ≡ not done
  held : t.held ≡ s.held

module _ {W : Type 0} (view : W → View) (m : Manager W) (locks : Locksmith W)
    (L : IsStore view m locks) where
  -- A loop whose rounds change nothing that is looked at.
  loop_same :
      (Q : Str → Type 0) (f : Str → M W ⊤)
      → ((x : Str) (w : W) → Q x → view (f x w).1 ≡ view w)
      → (xs : List Str) (w : W) → All Q xs
      → view (for_each f xs w).1 ≡ view w
  unfolding for_each
  loop_same Q f same [] w all = refl
  loop_same Q f same (x ∷ xs) w all =
      ground (arith, same x w all.0, loop_same Q f same xs (f x w).1 all.1)

  -- The path of an entry of the directory of the images.
  abbrev IsImage : Str → Type 0
  IsImage p = (name : Str) × IsName name × (p ≡ image_path m name)

  images_of_names : (names : List Str) → All IsName names → All IsImage (map (image_path m) names)
  images_of_names [] all = tt
  images_of_names (n ∷ names) all = ((n, all.0, refl), images_of_names names all.1)

  abbrev destroy_images : List Str → M W ⊤
  destroy_images =
      for_each (λ image.
        wrapping (codes "destroying image " ++ image) (m.image_driver.destroy_image image))

  abbrev destroy_volumes : List Str → M W ⊤
  destroy_volumes = for_each (λ volume.
      wrapping (codes "destroying volume " ++ volume) (m.volume_driver.destroy_volume volume))

  image_same : (p : Str) (w : W) → IsImage p → view (m.image_driver.destroy_image p w).1 ≡ view w
  image_same p w (name, plain, e) =
      ap (λ q. view (m.image_driver.destroy_image q w).1) e ∙ L.image_same w name plain

  images_same : (xs : List Str) (w : W) → All IsImage xs → view (destroy_images xs w).1 ≡ view w
  images_same = loop_same IsImage _ (λ x w h. ground (arith, image_same x w h))

  volumes_same : (xs : List Str) (w : W) → All IsName xs → view (destroy_volumes xs w).1 ≡ view w
  volumes_same = loop_same IsName _ (λ x w h. ground (arith, L.volume_same w x h))

  images_listed : (w : W) (xs : List Str) → (images m w).0 ≡ ok xs → All IsImage xs
  unfolding images
  images_listed w xs e =
      let path = join (m.store_path ∷ image_dir_name ∷ []) in
      elim (Result-cases (m.os.read_dir path w).0) [
        | inr (x, failed) ↦ absurd (ground (arith, failed))
        | inl (names, listed) ↦
            let is : map (image_path m) names ≡ xs = ground (arith, listed) in
            subst (All IsImage) is (images_of_names names (L.read_dir_names w path names listed))
      ]

  volumes_listed : (w : W) (xs : List Str) → (volumes m w).0 ≡ ok xs → All IsName xs
  unfolding volumes
  volumes_listed w xs e =
      let path = join (m.store_path ∷ volumes_dir_name ∷ []) in
      elim (Result-cases (m.os.read_dir path w).0) [
        | inr (x, failed) ↦ absurd (ground (arith, failed))
        | inl (names, listed) ↦
            let is : names ≡ xs = ground (arith, listed) in
            subst (All IsName) is (L.read_dir_names w path names listed)
      ]

  view-images : (w : W) → view (images m w).1 ≡ view w
  unfolding images
  view-images w = ground (arith, L.read_dir_same w (join (m.store_path ∷ image_dir_name ∷ [])))

  view-volumes : (w : W) → view (volumes m w).1 ≡ view w
  unfolding volumes
  view-volumes w = ground (arith, L.read_dir_same w (join (m.store_path ∷ volumes_dir_name ∷ [])))

  delete_locked-Deletes :
      (w : W)
      → (view w).there ≡ true
      → Deletes (succeeded (delete_locked m w).0) (view w) (view (delete_locked m w).1)
  unfolding delete_locked
  delete_locked-Deletes w h =
      let (r1, w1) = images m w in
      let same1 = view-images w in
      elim (Result-cases r1) [
        | inr (x, failed) ↦ record {
          there = ground (arith, failed, same1);
          held = ground (arith, failed, same1);
        }
        | inl (xs, listed) ↦
            let (r2, w2) = destroy_images xs w1 in
            let same2 = images_same xs w1 (images_listed w xs listed) in
            elim (Result-cases r2) [
              | inr (x, failed) ↦ record {
                there = ground (arith, listed, failed, same1, same2);
                held = ground (arith, listed, failed, same1, same2);
              }
              | inl (_, cleared) ↦
                  let (r3, w3) = volumes m w2 in
                  let same3 = view-volumes w2 in
                  elim (Result-cases r3) [
                    | inr (x, failed) ↦ record {
                      there = ground (arith, listed, cleared, failed, same1, same2, same3);
                      held = ground (arith, listed, cleared, failed, same1, same2, same3);
                    }
                    | inl (vs, found) ↦
                        let (r4, w4) = destroy_volumes vs w3 in
                        let same4 = volumes_same vs w3 (volumes_listed w2 vs found) in
                        elim (Result-cases r4) [
                          | inr (x, failed) ↦ record {
                            there =
                                ground (
                                  arith, listed, cleared, found, failed, same1, same2, same3, same4,
                                );
                            held =
                                ground (
                                  arith, listed, cleared, found, failed, same1, same2, same3, same4,
                                );
                          }
                          | inl (_, gone) ↦ record {
                            there = ground (arith, listed, cleared, found, gone, L.remove_there w4);
                            held = ground (
                              arith,
                              listed,
                              cleared,
                              found,
                              gone,
                              same1,
                              same2,
                              same3,
                              same4,
                              L.remove_held w4,
                            );
                          }
                        ]
                  ]
            ]
      ]

  -- The store's directory is gone after `DeleteStore` exactly if `DeleteStore` succeeds, and as many
  -- locks are held after it as before.
  pub delete_store_gone :
      (w : W)
      → ((view (delete_store m locks w).1).there ≡ not (succeeded (delete_store m locks w).0))
        × ((view (delete_store m locks w).1).held ≡ (view w).held)
  unfolding delete_store
  delete_store_gone w =
      let w1 = (m.os.stat m.store_path w).1 in
      let same = L.stat_same w m.store_path in
      elim (Bool-cases (missing (m.os.stat m.store_path w).0)) [
        | inl lost ↦ ground (arith, lost, same, L.stat_missing w)
        | inr found ↦
            let w2 = (locks.lock global_lock_key w1).1 in
            let there2 = L.lock_there w1 global_lock_key in
            let held2 = L.lock_held w1 global_lock_key in
            elim (Result-cases (locks.lock global_lock_key w1).0) [
              | inr (x, failed) ↦
                  ground (arith, found, failed, same, there2, held2, L.stat_missing w)
              | inl (file, locked) ↦
                  let is_there : (view w2).there ≡ true =
                    ground (arith, found, same, there2, L.stat_missing w) in
                  let done = delete_locked-Deletes w2 is_there in
                  let w3 = (delete_locked m w2).1 in
                  ground (
                    arith,
                    found,
                    locked,
                    same,
                    held2,
                    done.there,
                    done.held,
                    L.unlock_there w3 file,
                    L.unlock_held w3 file,
                  )
            ]
      ]
