-- ===== src/Puller/Layers.antt =====
-- The layers of an image as volumes: which lists of them are valid, and what building them does.
use groot_btrfs.Base.{
  ◌≡◌, refl, ◌∙◌, sym, ap, ◌≢◌, Bool, true, false, List, [], ◌∷◌, arith, inl, inr, All, Bool-cases,
  subst,
}
use groot_btrfs.Base.Str.{Str, eqb, eqb_iff, contains}
use groot_btrfs.Groot.{LayerInfo}
use groot_btrfs.Groot.Creator.{chain_ids}
use groot_btrfs.Puller.Store.{View, IsVolumeId, StaysIn}

abbrev pub AllBuilt : View → List LayerInfo → Type 0
AllBuilt s layers = All (λ info. s.has info.chain_id ≡ true) layers

-- The layers are listed from the top one down.
abbrev pub Closed : View → List LayerInfo → Type 0
Closed s [] = Unit
Closed s (info ∷ below) = (s.has info.chain_id ≡ true → AllBuilt s below) × Closed s below

-- The layers have proper ids, no id twice, and base directories that stay in their volumes.
abbrev pub ValidLayers : Str → List LayerInfo → Type 0
ValidLayers store [] = Unit
ValidLayers store (info ∷ below) =
    IsVolumeId store info.chain_id
    × (contains (chain_ids below) info.chain_id ≡ false)
    × StaysIn store info.base_directory
    × ValidLayers store below

-- What building the layers does, by whether it succeeds.
pub record Builds (store : Str) (layers : List LayerInfo) (done : Bool) (s t : View) : Type 0 where
  pub closed : Closed t layers
  pub built : done ≡ true → AllBuilt t layers
  pub other :
      (v : Str) → contains (chain_ids layers) v ≡ false → IsVolumeId store v → t.has v ≡ s.has v
  pub held : t.held ≡ s.held

pub AllBuilt-along :
    (layers : List LayerInfo) (s t : View)
    → ((v : Str) → contains (chain_ids layers) v ≡ true → t.has v ≡ s.has v)
    → AllBuilt s layers
    → AllBuilt t layers
unfolding contains chain_ids
AllBuilt-along [] s t keep h = tt
AllBuilt-along (info ∷ below) s t keep h = (
  keep info.chain_id (ground (arith, eqb_iff info.chain_id info.chain_id)) ∙ h.0,
  AllBuilt-along below s t (λ v m. keep v (ground (arith, m))) h.1,
)

pub Closed-along :
    (layers : List LayerInfo) (s t : View)
    → ((v : Str) → contains (chain_ids layers) v ≡ true → t.has v ≡ s.has v)
    → Closed s layers
    → Closed t layers
unfolding contains chain_ids
Closed-along [] s t keep h = tt
Closed-along (info ∷ below) s t keep h =
    let keep_below =
      λ (v : Str) (m : contains (chain_ids below) v ≡ true). keep v (ground (arith, m)) in
    (
      λ there. AllBuilt-along below s t keep_below (
          h.0 (
            sym (keep info.chain_id (ground (arith, eqb_iff info.chain_id info.chain_id)))
            ∙ there)),
      Closed-along below s t keep_below h.1,
    )

pub IsVolumeId-of_mem :
    (store : Str) (layers : List LayerInfo) (v : Str)
    → ValidLayers store layers
    → contains (chain_ids layers) v ≡ true
    → IsVolumeId store v
unfolding contains chain_ids
IsVolumeId-of_mem store [] v V m = cc
IsVolumeId-of_mem store (info ∷ below) v V m = elim (Bool-cases (eqb info.chain_id v)) [
  | inl same ↦ subst (IsVolumeId store) ((eqb_iff info.chain_id v).0 same) V.0
  | inr other ↦ IsVolumeId-of_mem store below v V.3 (ground (arith, other))
]

pub ne_of_mem : (u v : Str) (vs : List Str) → contains vs u ≡ false → contains vs v ≡ true → v ≢ u
ne_of_mem u v vs out m e = cc (ap (contains vs) e)

pub out_of_cons :
    (info : LayerInfo) (below : List LayerInfo) (v : Str)
    → contains (chain_ids (info ∷ below)) v ≡ false
    → (v ≢ info.chain_id) × (contains (chain_ids below) v ≡ false)
unfolding contains chain_ids
out_of_cons info below v out =
    (λ e. ground (arith, eqb_iff info.chain_id v, e), ground (arith, out))

-- Nothing happens, and nothing is promised that was not there.
pub Builds-idle :
    (store : Str) (layers : List LayerInfo) (done : Bool) (s t : View)
    → Closed s layers
    → (done ≡ true → AllBuilt s layers)
    → t ≡ s
    → Builds store layers done s t
Builds-idle store layers done s t closed built e =
    subst (Builds store layers done s) (sym e)
      (record { closed = closed; built = built; other = λ v out hv. refl; held = refl })
