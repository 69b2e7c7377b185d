-- ===== src/Jcc/Queries/Details.antt =====
-- app/jcc_data/repository.py: what the lists of traits and of equipment answer, row by row.
use tsuz_api_jcc.Base.{
  ℕ, String, Bool, ◌&&◌, Option, List, [], ◌∷◌, ◌++◌, length, contains, map, ◌==◌, nat_eq, ◌≡◌,
  refl, sym, ap, ◌∙◌, arith, inl, inr, ==→≡,
}
use mathlib.Core.List.{append-nil, append_assoc}
use tsuz_api_jcc.Base.Query.{select, page, fold, sort_by}
use tsuz_api_jcc.Base.Result.{Result-cases, ok, ◌>>=◌}
use tsuz_api_jcc.Jcc.Adapters.Data.{TraitKind, TraitTierData, TraitData, EquipmentData}
use tsuz_api_jcc.Jcc.Store.{Row, Store}
use tsuz_api_jcc.Jcc.Queries.{
  Database, TraitWithTiers, EquipmentWithComponents, required_current_snapshot, by_ℕ,
}
use tsuz_api_jcc.Jcc.Queries.Answers.{answer, each_grouped, map_ext}
use tsuz_api_jcc.Jcc.Queries.Listings.{
  tier_order, load_trait_tiers, trait_with, matching_traits, list_current_traits, traits_with_tiers,
  equipment_with_components, Recipe, recipes, recipe_key, recipe_of, components_of,
  load_equipment_components, equipment_with, matching_equipment, list_current_equipment,
}

module _ (db : Database) where
  -- A trait with its own tiers, in their order.
  abbrev pub trait_answer : Store → Row TraitData → TraitWithTiers
  trait_answer s t = record {
    trait = t;
    tiers = select (λ (tier : Row TraitTierData). t.id == tier.owner) (tier_order db) s.tiers.rows;
  }

  fold-append : (ts us : List (Row TraitTierData)) → fold (λ l t. l ++ t ∷ []) ts us ≡ ts ++ us
  fold-append ts [] = sym (append-nil ts)
  fold-append ts (u ∷ us) = fold-append (ts ++ u ∷ []) us ∙ append_assoc ts (u ∷ []) us

  -- The traits of the current snapshot that the filters leave are counted and listed page by page, each with its
  -- own tiers in their order; the grouped reading of the page never misses a trait.
  pub list_current_traits-answer :
      (mode : String) (kind : Option TraitKind) (name : Option String) (limit offset : ℕ)
      (s : Store)
      → list_current_traits db mode kind name limit offset s
        ≡ answer mode s (λ i.
          let traits = matching_traits db i kind name s in
          (map (trait_answer s) (page limit offset traits), length traits))
  unfolding list_current_traits traits_with_tiers load_trait_tiers
  list_current_traits-answer mode kind name limit offset s =
      elim (Result-cases (required_current_snapshot mode s)) [
        | inl (r, e) ↦
            let all_traits = matching_traits db r.id kind name s in
            let traits = page limit offset all_traits in
            rw e (
              ap
                (λ l. l >>= λ items.
                  ok (record { snapshot = r; items = items; total = length all_traits }))
                (each_grouped (λ (t : Row TraitData). t.id) (λ (t : Row TraitTierData). t.owner)
                    (λ l t. l ++ t ∷ []) [] (trait_with db) (λ ks t. contains ks t.owner)
                    (λ t tier. t.id == tier.owner) (sort_by (tier_order db) s.tiers.rows) traits
                    (λ ks t h. h) (λ ks t tier h. ground (arith, h, ==→≡ t.id tier.owner))
                  ∙ ap ok (
                      map_ext _ (trait_answer s) traits
                        (λ t. ap (trait_with db t) (fold-append [] _)))))
        | inr (e, h) ↦ rw h refl
      ]

  -- The recipe that makes a piece of equipment in a snapshot.
  abbrev pub own_recipe : ℕ → Row EquipmentData → Recipe db → Bool
  own_recipe snapshot_id e r = r.0.0.owner == snapshot_id && e.id == recipe_key db r

  abbrev pub equipment_answer : ℕ → Store → Row EquipmentData → EquipmentWithComponents
  equipment_answer snapshot_id s e = record {
    equipment = e;
    components =
        fold (components_of db) []
          (select (own_recipe snapshot_id e) (by_ℕ (recipe_key db)) (recipes db s));
  }

  -- The equipment of the current snapshot that the filters leave is counted and listed page by page, each piece with the two
  -- components of its last recipe there or none; the grouped reading of the page never misses a piece.
  pub list_current_equipment-answer :
      (mode : String) (name equipment_type : Option String) (limit offset : ℕ) (s : Store)
      → list_current_equipment db mode name equipment_type limit offset s
        ≡ answer mode s (λ i.
          let equipment = matching_equipment db i name equipment_type s in
          (map (equipment_answer i s) (page limit offset equipment), length equipment))
  unfolding list_current_equipment equipment_with_components load_equipment_components
  list_current_equipment-answer mode name equipment_type limit offset s =
      elim (Result-cases (required_current_snapshot mode s)) [
        | inl (r, e) ↦
            let all_equipment = matching_equipment db r.id name equipment_type s in
            rw e (
              ap
                (λ l. l >>= λ items.
                  ok (record { snapshot = r; items = items; total = length all_equipment }))
                (each_grouped (λ (x : Row EquipmentData). x.id) (recipe_key db) (components_of db)
                  [] (equipment_with db) (recipe_of db r.id) (own_recipe r.id)
                  (sort_by (by_ℕ (recipe_key db)) (recipes db s)) (page limit offset all_equipment)
                  (λ ks x h. ground (arith, h))
                  (λ ks x y h. ground (arith, h, ==→≡ x.id (recipe_key db y)))))
        | inr (e, h) ↦ rw h refl
      ]
