-- ===== src/Ids/Translate.antt =====
-- What `translateID` computes, against what a mapping means.
use groot_btrfs.Base.{
  ◌≡◌, ◌∙◌, sym, ap, refl, Bool, true, false, not, ◌&&◌, ◌||◌, List, [], ◌∷◌, ◌++◌, arith, ◌^◌, ◌↔◌,
}
use groot_btrfs.Base.Int.{
  ℤ, pos, ◌+ℤ◌, ◌-ℤ◌, ◌≤ℤ◌, ◌<ℤ◌, eqb_ℤ, add64, sub64, add64-eq, sub64-eq, int_laws, nonneg_parts,
  pred_parts, pos_part, neg_part,
}
use groot_btrfs.Groot.{IdMappingSpec}
use groot_btrfs.Ids.{translate_id, in_range}

-- A mapping of identities as the kernel has them: numbers of 32 bits.
pub record IsMapping (m : IdMappingSpec) : Type 0 where
  pub host_low : pos 0 ≤ℤ m.host_id
  pub host_high : m.host_id <ℤ pos (2 ^ 32)
  pub namespace_low : pos 0 ≤ℤ m.namespace_id
  pub namespace_high : m.namespace_id <ℤ pos (2 ^ 32)
  pub size_low : pos 0 ≤ℤ m.size
  pub size_high : m.size <ℤ pos (2 ^ 32)

-- The host's id of an id of the mapping's range.
abbrev pub mapped : ℤ → IdMappingSpec → ℤ
mapped id m = m.host_id +ℤ (id -ℤ m.namespace_id)

translate_id_in :
    (id : ℤ) (m : IdMappingSpec) (ms : List IdMappingSpec)
    → IsMapping m
    → pos 1 ≤ℤ id
    → eqb_ℤ m.size (pos 1) ≡ false
    → m.namespace_id ≤ℤ id
    → id <ℤ m.namespace_id +ℤ m.size
    → translate_id id (m ∷ ms) ≡ m.host_id +ℤ id -ℤ pos 1
unfolding translate_id
translate_id_in id m ms h low many from to =
    let ends = nonneg_parts m.namespace_id m.size h.namespace_low h.size_low in
    let id_low : pos 0 ≤ℤ id = omega arith in
    let sums = nonneg_parts m.host_id id h.host_low id_low in
    let last : add64 m.namespace_id m.size ≡ m.namespace_id +ℤ m.size =
      add64-eq m.namespace_id m.size (omega arith) (omega arith) (omega arith) in
    let moved : add64 m.host_id id ≡ m.host_id +ℤ id =
      add64-eq m.host_id id (omega arith) (omega arith) (omega arith) in
    let before = pred_parts (m.host_id +ℤ id) (omega arith) in
    let back : sub64 (m.host_id +ℤ id) (pos 1) ≡ m.host_id +ℤ id -ℤ pos 1 =
      sub64-eq (m.host_id +ℤ id) (pos 1) (omega arith) (omega arith) (omega arith) in
    let inside : in_range id m ≡ true = ground (arith, last) in
    ground (arith, many, inside, moved, back)

-- No range of more than one id, of these mappings, has the id.
abbrev pub passes : ℤ → List IdMappingSpec → Bool
passes id [] = true
passes id (m ∷ ms) = (eqb_ℤ m.size (pos 1) || not (in_range id m)) && passes id ms

translate_id-passes :
    (id : ℤ) (before ms : List IdMappingSpec)
    → pos 1 ≤ℤ id
    → passes id before ≡ true
    → translate_id id (before ++ ms) ≡ translate_id id ms
unfolding translate_id
translate_id-passes id [] ms low none = refl
translate_id-passes id (m ∷ before) ms low none =
    ground (arith, translate_id-passes id before ms low)

-- An id above 0 of a range that maps more than one id, where no such range before it in the list has
-- the id, is translated to the id that the mapping means exactly if the range starts at id 1.
pub translate_id_iff :
    (id : ℤ) (before : List IdMappingSpec) (m : IdMappingSpec) (ms : List IdMappingSpec)
    → passes id before ≡ true
    → IsMapping m
    → pos 1 ≤ℤ id
    → eqb_ℤ m.size (pos 1) ≡ false
    → m.namespace_id ≤ℤ id
    → id <ℤ m.namespace_id +ℤ m.size
    → (translate_id id (before ++ (m ∷ ms)) ≡ mapped id m) ↔ (m.namespace_id ≡ pos 1)
unfolding translate_id
translate_id_iff id before m ms none h low many from to =
    let found =
      translate_id-passes id before (m ∷ ms) low none
      ∙ translate_id_in id m ms h low many from to in
    (
      λ same. let e = sym found ∙ same in omega (int_laws, ap pos_part e, ap neg_part e),
      λ one. rw (found, one) (omega int_laws),
    )
