-- ===== src/Jcc/Store/Resolves.antt =====
-- The import of a whole snapshot finds the key of everything that the snapshot refers to.
use tsuz_api_jcc.Base.{
  ℕ, String, Bool, true, false, ◌||◌, List, [], ◌∷◌, map, All, All-weaken, Eq, string_eq, contains,
  is_some, ◌≡◌, refl, arith, Option-cases, inl, inr,
}
use tsuz_api_jcc.Base.Dict
use tsuz_api_jcc.Base.Dict.{Dict, lookup-insert}
use tsuz_api_jcc.Base.Result.{Result, ok, err, ◌>>=◌, >>=-eq-ok}
use tsuz_api_jcc.Jcc.Json.{Builtins}
use tsuz_api_jcc.Jcc.Adapters.Data.{
  TraitKind, SnapshotData, TraitData, TraitTierData, HeroTraitData, EquipmentRecipeData,
  StructuredSnapshot, key_eq,
}
use tsuz_api_jcc.Jcc.Adapters.Closed.{IsClosedRecipe}
use tsuz_api_jcc.Jcc.Adapters.Whole.{trait_key, IsRelation, IsWhole}
use tsuz_api_jcc.Jcc.Store.{
  Store, SnapshotRow, Table, StoreError, key_error, add, add_all, add_keyed, add_traits, key_of,
  resolve_relations, resolve_recipes, add_snapshot, add_entities, existing_snapshot, republish,
  import_snapshot, without_tiers, same_trait, same_tier, same_hero, same_relation, same_equipment,
  same_recipe, same_augment, same_adventure, same_galaxy,
}

-- The outcome is no `KeyError`.
abbrev pub IsFine : {A : Type 0} → Result StoreError A → Type 0
IsFine m = ¬ (m ≡ err key_error)

ok-IsFine : {A : Type 0} (a : A) → IsFine (ok a)
ok-IsFine a h = cc

module _ {A B : Type 0} where
  err-IsFine : (e : StoreError) → IsFine {A = A} (err e) → IsFine {A = B} (err e)
  err-IsFine e h p = ground arith

  >>=-IsFine :
      (m : Result StoreError A) (f : A → Result StoreError B)
      → IsFine m
      → ((a : A) → m ≡ ok a → IsFine (f a))
      → IsFine (m >>= f)
  >>=-IsFine (ok a) f h k = k a refl
  >>=-IsFine (err e) f h k = err-IsFine e h

module _ {A : Type 0} (same : A → A → Bool) (owner : ℕ) where
  add-IsFine : (x : A) (t : Table A) → IsFine (add same owner x t)
  unfolding add
  add-IsFine x t h = ground arith

  add_all-IsFine : (xs : List A) (t : Table A) → IsFine (add_all same owner xs t)
  unfolding add_all
  add_all-IsFine [] t = ok-IsFine t
  add_all-IsFine (x ∷ xs) t =
      >>=-IsFine (add same owner x t) _ (add-IsFine x t) (λ r _. add_all-IsFine xs r.1)

  module _ {K : Type 0} ⦃e : Eq K⦄ (key : A → K) where
    add_keyed-IsFine :
        (xs : List A) (ids : Dict K ℕ) (t : Table A) → IsFine (add_keyed same key owner xs ids t)
    unfolding add_keyed
    add_keyed-IsFine [] ids t = ok-IsFine (ids, t)
    add_keyed-IsFine (x ∷ xs) ids t =
        >>=-IsFine (add same owner x t) _ (add-IsFine x t)
          (λ r _. add_keyed-IsFine xs (Dict.insert (key x) r.0 ids) r.1)

    -- Each inserted item is in the dict.
    add_keyed-known :
        (xs : List A) (ids ids' : Dict K ℕ) (t u : Table A) (k : K)
        → add_keyed same key owner xs ids t ≡ ok (ids', u)
        → (is_some (Dict.lookup k ids) || contains (map key xs) k) ≡ true
        → is_some (Dict.lookup k ids') ≡ true
    unfolding add_keyed
    add_keyed-known [] ids ids' t u k h c = ground arith
    add_keyed-known (x ∷ xs) ids ids' t u k h c =
        let (r, _, h') = >>=-eq-ok (add same owner x t) _ h in
        add_keyed-known xs (Dict.insert (key x) r.0 ids) ids' r.1 u k h'
          (ground (arith, lookup-insert k (key x) r.0 ids))

key_of-IsFine :
    {K : Type 0} ⦃e : Eq K⦄ (ids : Dict K ℕ) (k : K)
    → is_some (Dict.lookup k ids) ≡ true
    → IsFine (key_of ids k)
unfolding key_of
key_of-IsFine ids k h p = ground arith

add_traits-IsFine :
    (owner : ℕ) (xs : List TraitData) (ids : Dict (TraitKind × String) ℕ) (t : Table TraitData)
    (tiers : Table TraitTierData)
    → IsFine (add_traits owner xs ids t tiers)
unfolding add_traits
add_traits-IsFine owner [] ids t tiers = ok-IsFine (ids, t, tiers)
add_traits-IsFine owner (x ∷ xs) ids t tiers =
    >>=-IsFine (add same_trait owner (without_tiers x) t) _
      (add-IsFine same_trait owner (without_tiers x) t)
      (λ r _.
        >>=-IsFine (add_all same_tier r.0 x.tiers tiers) _
          (add_all-IsFine same_tier r.0 x.tiers tiers)
          (λ tiers' _.
            add_traits-IsFine owner xs (Dict.insert (x.kind, x.external_id) r.0 ids) r.1 tiers'))

add_traits-known :
    (owner : ℕ) (xs : List TraitData) (ids ids' : Dict (TraitKind × String) ℕ)
    (t u : Table TraitData) (tiers tiers' : Table TraitTierData) (k : TraitKind × String)
    → add_traits owner xs ids t tiers ≡ ok (ids', u, tiers')
    → (is_some (Dict.lookup k ids) || contains (map trait_key xs) k) ≡ true
    → is_some (Dict.lookup k ids') ≡ true
unfolding add_traits
add_traits-known owner [] ids ids' t u tiers tiers' k h c = ground arith
add_traits-known owner (x ∷ xs) ids ids' t u tiers tiers' k h c =
    let (r, _, h₁) = >>=-eq-ok (add same_trait owner (without_tiers x) t) _ h in
    let (mid, _, h₂) = >>=-eq-ok (add_all same_tier r.0 x.tiers tiers) _ h₁ in
    add_traits-known owner xs (Dict.insert (x.kind, x.external_id) r.0 ids) ids' r.1 u mid tiers' k
      h₂ (ground (arith, lookup-insert k (trait_key x) r.0 ids))

resolve_relations-IsFine :
    (hs : Dict String ℕ) (ts : Dict (TraitKind × String) ℕ) (rs : List HeroTraitData)
    → All
        (λ r.
          (is_some (Dict.lookup r.hero_external_id hs) ≡ true)
          × (is_some (Dict.lookup (r.relation_kind, r.trait_external_id) ts) ≡ true))
        rs
    → IsFine (resolve_relations hs ts rs)
unfolding resolve_relations
resolve_relations-IsFine hs ts [] a = ok-IsFine []
resolve_relations-IsFine hs ts (r ∷ rs) ((p, q), a) =
    >>=-IsFine (key_of hs r.hero_external_id) _ (key_of-IsFine hs r.hero_external_id p) (λ h _.
      >>=-IsFine (key_of ts (r.relation_kind, r.trait_external_id)) _
        (key_of-IsFine ts (r.relation_kind, r.trait_external_id) q)
        (λ t _.
          >>=-IsFine (resolve_relations hs ts rs) _ (resolve_relations-IsFine hs ts rs a)
            (λ rest _. ok-IsFine _)))

resolve_recipes-IsFine :
    (es : Dict String ℕ) (rs : List EquipmentRecipeData)
    → All
        (λ r.
          (is_some (Dict.lookup r.equipment_external_id es) ≡ true)
          × (is_some (Dict.lookup r.first_component_external_id es) ≡ true)
          × (is_some (Dict.lookup r.second_component_external_id es) ≡ true))
        rs
    → IsFine (resolve_recipes es rs)
unfolding resolve_recipes
resolve_recipes-IsFine es [] a = ok-IsFine []
resolve_recipes-IsFine es (r ∷ rs) ((p, q, s), a) =
    >>=-IsFine (key_of es r.equipment_external_id) _ (key_of-IsFine es r.equipment_external_id p)
      (λ h _.
        >>=-IsFine (key_of es r.first_component_external_id) _
          (key_of-IsFine es r.first_component_external_id q)
          (λ t _.
            >>=-IsFine (key_of es r.second_component_external_id) _
              (key_of-IsFine es r.second_component_external_id s)
              (λ b _.
                >>=-IsFine (resolve_recipes es rs) _ (resolve_recipes-IsFine es rs a)
                  (λ rest _. ok-IsFine _))))

-- All insertions of a snapshot whose references are closed.
add_entities-IsFine :
    (i : ℕ) (incoming : StructuredSnapshot) (s : Store)
    → IsWhole incoming
    → IsFine (add_entities i incoming s)
unfolding add_entities Dict.lookup
add_entities-IsFine i incoming s (_, relations, recipes) =
    >>=-IsFine (add_keyed same_hero (λ h. h.external_id) i incoming.heroes [] s.heroes) _
      (add_keyed-IsFine same_hero i (λ h. h.external_id) incoming.heroes [] s.heroes)
      (λ (hero_ids, heroes) f₁.
        >>=-IsFine (add_traits i incoming.traits [] s.traits s.tiers) _
          (add_traits-IsFine i incoming.traits [] s.traits s.tiers)
          (λ (trait_ids, traits, tiers) f₂.
            >>=-IsFine (resolve_relations hero_ids trait_ids incoming.hero_traits) _
              (resolve_relations-IsFine hero_ids trait_ids incoming.hero_traits (
                All-weaken (IsRelation incoming) _ incoming.hero_traits
                  (λ r (a, b). (
                    add_keyed-known same_hero i (λ h. h.external_id) incoming.heroes [] hero_ids
                        s.heroes heroes r.hero_external_id f₁ a,
                    add_traits-known i incoming.traits [] trait_ids s.traits traits s.tiers tiers
                        (r.relation_kind, r.trait_external_id) f₂ b,
                  ))
                  relations))
              (λ wanted _.
                >>=-IsFine (add_all same_relation i wanted s.hero_traits) _
                  (add_all-IsFine same_relation i wanted s.hero_traits)
                  (λ hero_traits _.
                    >>=-IsFine
                      (add_keyed same_equipment (λ e. e.external_id) i incoming.equipment []
                        s.equipment)
                      _
                      (add_keyed-IsFine same_equipment i (λ e. e.external_id) incoming.equipment []
                        s.equipment)
                      (λ (ids, equipment) f₃.
                        >>=-IsFine (resolve_recipes ids incoming.equipment_recipes) _
                          (resolve_recipes-IsFine ids incoming.equipment_recipes (
                            All-weaken
                              (IsClosedRecipe (map (λ e. e.external_id) incoming.equipment)) _
                              incoming.equipment_recipes
                              (λ r (a, b, c). (
                                add_keyed-known same_equipment i (λ e. e.external_id)
                                    incoming.equipment [] ids s.equipment equipment
                                    r.equipment_external_id f₃ a,
                                add_keyed-known same_equipment i (λ e. e.external_id)
                                    incoming.equipment [] ids s.equipment equipment
                                    r.first_component_external_id f₃ b,
                                add_keyed-known same_equipment i (λ e. e.external_id)
                                    incoming.equipment [] ids s.equipment equipment
                                    r.second_component_external_id f₃ c,
                              ))
                              recipes))
                          (λ rows _.
                            >>=-IsFine (add_all same_recipe i rows s.recipes) _
                              (add_all-IsFine same_recipe i rows s.recipes)
                              (λ _ _.
                                >>=-IsFine (add_all same_augment i incoming.augments s.augments) _
                                  (add_all-IsFine same_augment i incoming.augments s.augments)
                                  (λ _ _.
                                    >>=-IsFine
                                      (add_all same_adventure i incoming.adventures s.adventures) _
                                      (add_all-IsFine same_adventure i incoming.adventures
                                        s.adventures)
                                      (λ _ _.
                                        >>=-IsFine
                                          (add_all same_galaxy i incoming.galaxies s.galaxies) _
                                          (add_all-IsFine same_galaxy i incoming.galaxies
                                            s.galaxies)
                                          (λ _ _. ok-IsFine _))))))))))

add_snapshot-IsFine :
    (py : Builtins) (now : ℕ) (m : SnapshotData) (s : Store) → IsFine (add_snapshot py now m s)
unfolding add_snapshot
add_snapshot-IsFine py now m s h = ground arith

republish-IsFine :
    (now : ℕ) (incoming : StructuredSnapshot) (row : SnapshotRow) (s : Store)
    → IsFine (republish now incoming row s)
unfolding republish
republish-IsFine now incoming row s h = ground arith

-- The import of a snapshot whose references are closed never ends in a `KeyError`, whatever the
-- store holds.
pub import_snapshot-IsFine :
    (py : Builtins) (now now' : ℕ) (busy : Bool) (incoming : StructuredSnapshot) (s : Store)
    → IsWhole incoming
    → ¬ (import_snapshot py now now' busy incoming s ≡ err key_error)
unfolding import_snapshot
import_snapshot-IsFine py now now' true incoming s w h = cc
import_snapshot-IsFine py now now' false incoming s w h =
    elim (Option-cases (existing_snapshot incoming.metadata s)) [
      | inr (row, e) ↦ republish-IsFine now' incoming row s (ground arith)
      | inl e ↦
          >>=-IsFine (add_snapshot py now incoming.metadata s) _
            (add_snapshot-IsFine py now incoming.metadata s)
            (λ r _.
              >>=-IsFine (add_entities r.0 incoming r.1) _ (add_entities-IsFine r.0 incoming r.1 w)
                (λ filled _. ok-IsFine _))
            (rw (e, import_snapshot) at h)
    ]
