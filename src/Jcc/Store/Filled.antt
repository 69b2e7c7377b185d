-- ===== src/Jcc/Store/Filled.antt =====
-- The import of a new snapshot keeps the owners of rows in order and inserts every entity.
use tsuz_api_jcc.Base.{
  ℕ, suc, ◌+◌, ◌≤◌, ◌<◌, String, true, List, [], ◌∷◌, length, ◌==◌, string_eq, nat_eq, option_eq,
  ◌≡◌, ap, ◌∙◌, arith, ==_refl,
}
use mathlib.Core.Path.{subst}
use tsuz_api_jcc.Base.Dict.{Dict}
use tsuz_api_jcc.Base.Result.{ok_injective, ok, >>=-eq-ok}
use tsuz_api_jcc.Jcc.Adapters.Data.{
  StructuredSnapshot, key_eq, TraitKind, HeroTraitData, EquipmentRecipeData,
}
use tsuz_api_jcc.Jcc.Store.{
  Store, Row, HeroTraitRow, RecipeRow, key_of, add_all, add_keyed, add_traits, resolve_relations,
  resolve_recipes, count, count_tiers, sum_tiers, same_hero, same_relation, same_equipment,
  same_recipe, same_augment, same_adventure, same_galaxy, snapshot_is_complete, add_entities,
}
use tsuz_api_jcc.Jcc.Store.Complete.{
  OwnersBelow, owned, owned-add_all, owned-add_keyed, owned-below, below-weaken, below-add_all,
  below-add_keyed, add_traits-done, add_traits-below, owned-trait_of-none, trait_of,
}

-- The rows of the entities belong to snapshots below a bound, those of the tiers to known traits.
pub record Below (n : ℕ) (s : Store) : Type 0 where
  pub heroes : OwnersBelow n s.heroes.rows
  pub traits : OwnersBelow n s.traits.rows
  pub tiers : OwnersBelow s.traits.next s.tiers.rows
  pub hero_traits : OwnersBelow n s.hero_traits.rows
  pub equipment : OwnersBelow n s.equipment.rows
  pub recipes : OwnersBelow n s.recipes.rows
  pub augments : OwnersBelow n s.augments.rows
  pub adventures : OwnersBelow n s.adventures.rows
  pub galaxies : OwnersBelow n s.galaxies.rows

-- No row belongs to a snapshot, or a tier to a trait, that is still to come.
pub record IsWell (s : Store) : Type 0 where
  pub below : Below s.next_snapshot s

resolve_relations-length :
    (hs : Dict String ℕ) (ts : Dict (TraitKind × String) ℕ) (rs : List HeroTraitData)
    (rows : List HeroTraitRow)
    → resolve_relations hs ts rs ≡ ok rows
    → length rows ≡ length rs
unfolding resolve_relations
resolve_relations-length hs ts [] rows h = ground arith
resolve_relations-length hs ts (r ∷ rs) rows h =
    let (a, _, h₁) = >>=-eq-ok (key_of hs r.hero_external_id) _ h in
    let (b, _, h₂) = >>=-eq-ok (key_of ts (r.relation_kind, r.trait_external_id)) _ h₁ in
    let (rest, fr, _) = >>=-eq-ok (resolve_relations hs ts rs) _ h₂ in
    ground (arith, resolve_relations-length hs ts rs rest fr)

resolve_recipes-length :
    (es : Dict String ℕ) (rs : List EquipmentRecipeData) (rows : List RecipeRow)
    → resolve_recipes es rs ≡ ok rows
    → length rows ≡ length rs
unfolding resolve_recipes
resolve_recipes-length es [] rows h = ground arith
resolve_recipes-length es (r ∷ rs) rows h =
    let (a, _, h₁) = >>=-eq-ok (key_of es r.equipment_external_id) _ h in
    let (b, _, h₂) = >>=-eq-ok (key_of es r.first_component_external_id) _ h₁ in
    let (c, _, h₃) = >>=-eq-ok (key_of es r.second_component_external_id) _ h₂ in
    let (rest, fr, _) = >>=-eq-ok (resolve_recipes es rs) _ h₃ in
    ground (arith, resolve_recipes-length es rs rest fr)

fresh :
    {A : Type 0} (i n : ℕ) (rows : List (Row A))
    → OwnersBelow i rows
    → owned (λ o. o == i) rows + n ≡ n
fresh i n rows h = omega (arith, owned-below i rows h)

zero_add : (n : ℕ) → 0 + n ≡ n
zero_add n = omega arith

-- The numbers of rows are those of the incoming snapshot.
record Counts (i : ℕ) (incoming : StructuredSnapshot) (t : Store) : Type 0 where
  heroes : owned (λ o. o == i) t.heroes.rows ≡ length incoming.heroes
  traits : owned (λ o. o == i) t.traits.rows ≡ length incoming.traits
  tiers : owned (trait_of i t.traits.rows) t.tiers.rows ≡ sum_tiers incoming.traits
  hero_traits : owned (λ o. o == i) t.hero_traits.rows ≡ length incoming.hero_traits
  equipment : owned (λ o. o == i) t.equipment.rows ≡ length incoming.equipment
  recipes : owned (λ o. o == i) t.recipes.rows ≡ length incoming.equipment_recipes
  augments : owned (λ o. o == i) t.augments.rows ≡ length incoming.augments
  adventures : owned (λ o. o == i) t.adventures.rows ≡ length incoming.adventures
  galaxies : owned (λ o. o == i) t.galaxies.rows ≡ length incoming.galaxies

complete_of :
    (i : ℕ) (incoming : StructuredSnapshot) (t : Store)
    → Counts i incoming t
    → snapshot_is_complete i incoming t ≡ true
unfolding snapshot_is_complete count count_tiers
complete_of i incoming t c = ground (
  arith, c.heroes, c.traits, c.tiers, c.hero_traits, c.equipment, c.recipes, c.augments,
  c.adventures, c.galaxies,
)

-- The entities of a new snapshot are inserted completely.
pub add_entities_complete :
    (i : ℕ) (incoming : StructuredSnapshot) (s t : Store)
    → add_entities i incoming s ≡ ok t
    → Below i s
    → (snapshot_is_complete i incoming t ≡ true) × Below (suc i) t
unfolding add_entities
add_entities_complete i incoming s t h b =
    let at_i = λ (o : ℕ). o == i in
    let here : at_i i ≡ true = ==_refl i in
    let up : i ≤ suc i = omega arith in
    let lt : i < suc i = omega arith in
    let ((hero_ids, heroes), f₁, k₁) =
      >>=-eq-ok (add_keyed same_hero (λ h. h.external_id) i incoming.heroes [] s.heroes) _ h in
    let ((trait_ids, traits, tiers), f₂, k₂) =
      >>=-eq-ok (add_traits i incoming.traits [] s.traits s.tiers) _ k₁ in
    let (relations, f₃, k₃) =
      >>=-eq-ok (resolve_relations hero_ids trait_ids incoming.hero_traits) _ k₂ in
    let (hero_traits, f₄, k₄) = >>=-eq-ok (add_all same_relation i relations s.hero_traits) _ k₃ in
    let ((equipment_ids, equipment), f₅, k₅) =
      >>=-eq-ok (add_keyed same_equipment (λ e. e.external_id) i incoming.equipment [] s.equipment)
        _ k₄ in
    let (wanted, f₆, k₆) =
      >>=-eq-ok (resolve_recipes equipment_ids incoming.equipment_recipes) _ k₅ in
    let (recipes, f₇, k₇) = >>=-eq-ok (add_all same_recipe i wanted s.recipes) _ k₆ in
    let (augments, f₈, k₈) = >>=-eq-ok (add_all same_augment i incoming.augments s.augments) _ k₇ in
    let (adventures, f₉, k₉) =
      >>=-eq-ok (add_all same_adventure i incoming.adventures s.adventures) _ k₈ in
    let (galaxies, f₁₀, k₁₀) =
      >>=-eq-ok (add_all same_galaxy i incoming.galaxies s.galaxies) _ k₉ in
    let w = ok_injective _ t k₁₀ in
    let done =
      add_traits-done i incoming.traits [] trait_ids s.traits traits s.tiers tiers f₂ b.tiers in
    subst (λ x. (snapshot_is_complete i incoming x ≡ true) × Below (suc i) x) w
      (
        complete_of i incoming _ (record {
          heroes =
              owned-add_keyed at_i same_hero (λ h. h.external_id) i incoming.heroes [] hero_ids
                s.heroes heroes f₁ here
              ∙ fresh i (length incoming.heroes) s.heroes.rows b.heroes;
          traits = done.rows ∙ fresh i (length incoming.traits) s.traits.rows b.traits;
          tiers =
              done.tiers_of
              ∙ ap (λ n. n + sum_tiers incoming.traits)
                  (owned-trait_of-none i s.traits.rows s.tiers.rows b.traits)
              ∙ zero_add (sum_tiers incoming.traits);
          hero_traits =
              owned-add_all at_i same_relation i relations s.hero_traits hero_traits f₄ here
              ∙ fresh i (length relations) s.hero_traits.rows b.hero_traits
              ∙ resolve_relations-length hero_ids trait_ids incoming.hero_traits relations f₃;
          equipment =
              owned-add_keyed at_i same_equipment (λ e. e.external_id) i incoming.equipment []
                equipment_ids s.equipment equipment f₅ here
              ∙ fresh i (length incoming.equipment) s.equipment.rows b.equipment;
          recipes =
              owned-add_all at_i same_recipe i wanted s.recipes recipes f₇ here
              ∙ fresh i (length wanted) s.recipes.rows b.recipes
              ∙ resolve_recipes-length equipment_ids incoming.equipment_recipes wanted f₆;
          augments =
              owned-add_all at_i same_augment i incoming.augments s.augments augments f₈ here
              ∙ fresh i (length incoming.augments) s.augments.rows b.augments;
          adventures =
              owned-add_all at_i same_adventure i incoming.adventures s.adventures adventures f₉
                here
              ∙ fresh i (length incoming.adventures) s.adventures.rows b.adventures;
          galaxies =
              owned-add_all at_i same_galaxy i incoming.galaxies s.galaxies galaxies f₁₀ here
              ∙ fresh i (length incoming.galaxies) s.galaxies.rows b.galaxies;
        }),
        record {
          heroes =
              below-add_keyed same_hero (λ h. h.external_id) i (suc i) incoming.heroes [] hero_ids
                s.heroes heroes f₁ lt (below-weaken i (suc i) s.heroes.rows up b.heroes);
          traits =
              add_traits-below i (suc i) incoming.traits [] trait_ids s.traits traits s.tiers tiers
                f₂ lt (below-weaken i (suc i) s.traits.rows up b.traits);
          tiers = done.below;
          hero_traits =
              below-add_all same_relation i (suc i) relations s.hero_traits hero_traits f₄ lt
                (below-weaken i (suc i) s.hero_traits.rows up b.hero_traits);
          equipment =
              below-add_keyed same_equipment (λ e. e.external_id) i (suc i) incoming.equipment []
                equipment_ids s.equipment equipment f₅ lt
                (below-weaken i (suc i) s.equipment.rows up b.equipment);
          recipes =
              below-add_all same_recipe i (suc i) wanted s.recipes recipes f₇ lt
                (below-weaken i (suc i) s.recipes.rows up b.recipes);
          augments =
              below-add_all same_augment i (suc i) incoming.augments s.augments augments f₈ lt
                (below-weaken i (suc i) s.augments.rows up b.augments);
          adventures =
              below-add_all same_adventure i (suc i) incoming.adventures s.adventures adventures f₉
                lt (below-weaken i (suc i) s.adventures.rows up b.adventures);
          galaxies =
              below-add_all same_galaxy i (suc i) incoming.galaxies s.galaxies galaxies f₁₀ lt
                (below-weaken i (suc i) s.galaxies.rows up b.galaxies);
        },
      )
