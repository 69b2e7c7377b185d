-- ===== src/Jcc/Queries.antt =====
-- The reading operations of app/jcc_data/repository.py. What the database decides is a parameter: the order of
-- its texts, and the test for a part of a text. `isinstance` tests on rows of one table are left out.
pub mod Listings
pub mod Answers
pub mod Pages
pub mod Details
pub mod Recipes
pub mod Counts
use tsuz_api_jcc.Base.{
  ℕ, ◌+◌, String, Bool, true, false, ◌&&◌, Option, none, some, List, [], ◌∷◌, ◌++◌, any, find, keep,
  length, contains, leb, ltb, map, ◌==◌, string_eq, nat_eq, option_eq, if◌then◌else◌,
}
use tsuz_api_jcc.Base.Dict
use tsuz_api_jcc.Base.Dict.{Dict}
use tsuz_api_jcc.Base.Int.{ℤ, leb_ℤ}
use tsuz_api_jcc.Base.Query.{then_by, select, page, join, blank, absorb, sort_by}
use tsuz_api_jcc.Base.Result.{Result, ok, err, ◌>>=◌}
use tsuz_api_jcc.Base.Text.{str_length}
use tsuz_api_jcc.Jcc.Adapters.Data.{
  TraitKind, race, job, kind_eq, int_eq, HeroData, TraitTierData, TraitData, EquipmentData,
  AugmentData, AdventureData, GalaxyData,
}
use tsuz_api_jcc.Jcc.Store.{
  Row, Table, HeroTraitRow, RecipeRow, SnapshotRow, Store, lock_current, count, count_tiers,
}

-- What the database decides: whether a text may stand before another in `ORDER BY`, and `column LIKE '%value%'`.
pub record Database : Type 0 where
  pub text_le : String → String → Bool
  pub contains_text : String → String → Bool

pub record HeroWithTraits : Type 0 where
  pub hero : Row HeroData
  pub traits : List (Row TraitData)
  pub classes : List (Row TraitData)

pub record TraitWithTiers : Type 0 where
  pub trait : Row TraitData
  pub tiers : List (Row TraitTierData)

pub record EquipmentWithComponents : Type 0 where
  pub equipment : Row EquipmentData
  pub components : List (Row EquipmentData)

pub record SnapshotListResult (A : Type 0) : Type 0 where
  pub snapshot : SnapshotRow
  pub items : List A
  pub total : ℕ

pub record SnapshotItemResult (A : Type 0) : Type 0 where
  pub snapshot : SnapshotRow
  pub item : Option A

-- `LookupError`, `KeyError` and `IndexError`
pub data QueryError : Type 0 where
  no_current_snapshot key_error index_error : QueryError

abbrev pub Answer : Type 0 → Type 0
Answer A = Result QueryError A

-- `_current_snapshot`
unfoldable pub current_snapshot : String → Store → Option SnapshotRow
current_snapshot mode s = elim (find (λ c. c.mode == mode) s.current) [
  | none ↦ none
  | some c ↦ find (λ r. r.id == c.snapshot_id) s.snapshots
]

abbrev pub or_no_snapshot : Option SnapshotRow → Answer SnapshotRow
or_no_snapshot none = err no_current_snapshot
or_no_snapshot (some r) = ok r

abbrev pub required_current_snapshot : String → Store → Answer SnapshotRow
required_current_snapshot mode s = or_no_snapshot (current_snapshot mode s)

unfoldable pub get_current_resource_counts :
    String → Store → Answer (SnapshotRow × List (String × ℕ))
get_current_resource_counts mode s = do
  r ← required_current_snapshot mode s
  ok (
    r,
    ("heroes", count r.id s.heroes)
        ∷ ("traits", count r.id s.traits)
        ∷ ("trait_tiers", count_tiers r.id s)
        ∷ ("hero_traits", count r.id s.hero_traits)
        ∷ ("equipment", count r.id s.equipment)
        ∷ ("equipment_recipes", count r.id s.recipes)
        ∷ ("augments", count r.id s.augments)
        ∷ ("adventures", count r.id s.adventures)
        ∷ ("galaxies", count r.id s.galaxies)
        ∷ [],
  )

-- A condition that is only there for an argument that is given.
abbrev pub if_given : {A : Type 0} → Option A → (A → Bool) → Bool
if_given none p = true
if_given (some a) p = p a

-- `[f(x) for x in xs]`, for an `f` that may raise.
abbrev pub each : {A B : Type 0} → (A → Answer B) → List A → Answer (List B)
each f [] = ok []
each f (x ∷ xs) = do y ← f x; ys ← each f xs; ok (y ∷ ys)

-- `grouped[key]`
abbrev pub found : {V : Type 0} → Option V → Answer V
found none = err key_error
found (some v) = ok v

abbrev pub by_ℕ : {A : Type 0} → (A → ℕ) → A → A → Bool
by_ℕ key a b = leb (key a) (key b)

module _ (db : Database) where
  -- `_stable_external_id_order`
  unfoldable pub stable_order : {A : Type 0} → (A → String) → A → A → Bool
  stable_order external_id =
      then_by (by_ℕ (λ a. str_length (external_id a)))
        (λ a b. db.text_le (external_id a) (external_id b))

  abbrev pub Joined : Type 0
  Joined = Row HeroTraitRow × Row TraitData

  -- The order of the relations joined with their traits.
  unfoldable pub relation_order : Joined → Joined → Bool
  relation_order =
      then_by (by_ℕ (λ (r, _). r.value.hero_id))
        (then_by (by_ℕ (λ (r, _). r.value.position)) (stable_order (λ (_, t). t.value.external_id)))

  abbrev pub relations : Store → List Joined
  relations s = join (λ r t. t.id == r.value.trait_id) s.hero_traits.rows s.traits.rows

  abbrev pub of_heroes : ℕ → List ℕ → Joined → Bool
  of_heroes snapshot_id hero_ids (r, t) =
      r.owner == snapshot_id && t.owner == snapshot_id && contains hero_ids r.value.hero_id

  abbrev pub Groups : Type 0
  Groups = List (Row TraitData) × List (Row TraitData)

  abbrev pub add_trait : Groups → Joined → Groups
  add_trait (traits, classes) (r, t) = elim r.value.relation_kind [
    | race ↦ (traits ++ t ∷ [], classes)
    | job ↦ (traits, classes ++ t ∷ [])
  ]

  -- `_load_hero_traits`; no identifiers select no rows.
  unfoldable pub load_hero_traits : ℕ → List ℕ → Store → Answer (Dict ℕ Groups)
  unfolding absorb blank relation_order
  load_hero_traits snapshot_id hero_ids s = found (
      absorb (λ (r, _). r.value.hero_id) add_trait
        (select (of_heroes snapshot_id hero_ids) relation_order (relations s))
        (blank ([], []) hero_ids))

  abbrev pub hero_with : Row HeroData → Groups → HeroWithTraits
  hero_with h (traits, classes) = record { hero = h; traits = traits; classes = classes }

  unfoldable pub heroes_with_traits : ℕ → List (Row HeroData) → Store → Answer (List HeroWithTraits)
  unfolding load_hero_traits
  heroes_with_traits snapshot_id heroes s = do
    grouped ← load_hero_traits snapshot_id (map (λ h. h.id) heroes) s
    each (λ h. do g ← found (Dict.lookup h.id grouped); ok (hero_with h g)) heroes

  -- The subquery on the relations of a hero to a race or a job.
  abbrev pub has_trait : ℕ → TraitKind → Store → Row HeroData → String → Bool
  unfolding kind_eq
  has_trait snapshot_id kind s h external_id =
      any
        (λ (r, t).
          t.owner == r.owner
          && r.owner == snapshot_id
          && r.value.hero_id == h.id
          && r.value.relation_kind == kind
          && t.value.kind == kind
          && t.value.external_id == external_id)
        (relations s)

  pub record HeroFilters : Type 0 where
    pub name : Option String
    pub trait_id : Option String
    pub class_id : Option String
    pub price : Option ℤ

  unfoldable pub hero_matches : ℕ → HeroFilters → Store → Row HeroData → Bool
  unfolding option_eq int_eq
  hero_matches snapshot_id f s h =
      h.owner == snapshot_id
      && if_given f.name (db.contains_text h.value.name)
      && if_given f.price (λ p. h.value.price == some p)
      && if_given f.trait_id (has_trait snapshot_id race s h)
      && if_given f.class_id (has_trait snapshot_id job s h)

  -- The heroes that the filters leave, in order.
  abbrev pub matching_heroes : ℕ → HeroFilters → Store → List (Row HeroData)
  matching_heroes snapshot_id f s =
      select (hero_matches snapshot_id f s) (stable_order (λ h. h.value.external_id)) s.heroes.rows

  unfoldable pub list_current_heroes :
      String → HeroFilters → ℕ → ℕ → Store → Answer (SnapshotListResult HeroWithTraits)
  unfolding heroes_with_traits hero_matches stable_order
  list_current_heroes mode f limit offset s = do
    r ← required_current_snapshot mode s
    let heroes = matching_heroes r.id f s
    items ← heroes_with_traits r.id (page limit offset heroes) s
    ok (record { snapshot = r; items = items; total = length heroes })

  abbrev pub first_of : List HeroWithTraits → Answer HeroWithTraits
  first_of [] = err index_error
  first_of (h ∷ _) = ok h

  unfoldable pub get_current_hero :
      String → String → Store → Answer (SnapshotItemResult HeroWithTraits)
  unfolding heroes_with_traits
  get_current_hero mode hero_external_id s = do
    r ← required_current_snapshot mode s
    elim (find (λ (h : Row HeroData). h.owner == r.id && h.value.external_id == hero_external_id)
        s.heroes.rows) [
          | none ↦ ok (record { snapshot = r; item = none })
          | some h ↦ do
            items ← heroes_with_traits r.id (h ∷ []) s
            item ← first_of items
            ok (record { snapshot = r; item = some item })
        ]
