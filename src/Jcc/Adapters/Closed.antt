-- ===== src/Jcc/Adapters/Closed.antt =====
-- A structured snapshot refers only to entities that it has.
use tsuz_api_jcc.Base.{
  ℕ, suc, String, Bool, true, false, ◌&&◌, not, List, [], ◌∷◌, ◌++◌, map, All, All-append,
  All-weaken, ◌==◌, string_eq, is_none, is_some, contains, ◌≡◌, refl, ap, sym, ◌∙◌, arith,
  Bool-cases, inl, inr, ==_refl,
}
use mathlib.Core.Path.{subst}
use tsuz_api_jcc.Base.Dict
use tsuz_api_jcc.Base.Result.{ok, guard, >>=-eq-ok}
use tsuz_api_jcc.Jcc.Json.{Json, Object, Builtins}
use tsuz_api_jcc.Jcc.Scalars.{
  Checked, ensure_key_matches_id, required_id, optional_string, split_ids, get,
}
use tsuz_api_jcc.Jcc.Adapters.Data.{
  TraitKind, race, job, RawSnapshot, HeroData, HeroTraitData, EquipmentData, EquipmentRecipeData,
  key_eq, as_object, data_of,
}
use tsuz_api_jcc.Jcc.Adapters.Traits.{Index}
use tsuz_api_jcc.Jcc.Adapters.Entities.{
  each, relate, flatten_relations, component, recipe_of, build_hero, hero_of, relations_of,
  build_heroes, build_item, build_recipe, concat, build_equipment,
}

abbrev pub keys : Object → List String
keys = map (λ (k, _). k)

-- Entities that carry the key of their record come out in the order of the keys.
each-keys {ℓ} :
    {A : Type ℓ} (f : String → Json → Checked A) (id : A → String)
    → ((k : String) (v : Json) (a : A) → f k v ≡ ok a → id a ≡ k)
    → (records : Object) (xs : List A) → each f records ≡ ok xs
    → map id xs ≡ keys records
unfolding each
each-keys f id law [] xs h = ground arith
each-keys f id law ((k, v) ∷ records) xs h =
    let (a, fa, h') = >>=-eq-ok (f k v) _ h in
    let (rest, fr, e) = >>=-eq-ok (each f records) _ h' in
    ground (arith, law k v a fa, each-keys f id law records rest fr)

guard-ok : {E : Type 0} (b : Bool) (e : E) {u : Unit {0}} → guard b e ≡ ok u → b ≡ true
guard-ok true e h = refl
guard-ok false e h = cc

module _ (py : Builtins) where
  ensure_key-eq :
      (key id_key : String) (entry : Object) (external_id : String)
      → ensure_key_matches_id py key entry id_key ≡ ok external_id
      → external_id ≡ key
  unfolding ensure_key_matches_id
  ensure_key-eq key id_key entry external_id h =
      let (i, fi, h') = >>=-eq-ok (required_id py entry id_key) _ h in
      let (u, fu, e) = >>=-eq-ok (guard (key == i) _) _ h' in
      ground (arith, guard-ok (key == i) _ fu)

  item_id :
      (key : String) (v : Json) (e : EquipmentData)
      → build_item py key v ≡ ok e
      → e.external_id ≡ key
  unfolding build_item
  item_id key v e h =
      let (entry, fe, h') = >>=-eq-ok (as_object v) _ h in
      let (i, fi, h'') = >>=-eq-ok (ensure_key_matches_id py key entry "id") _ h' in
      let k = ensure_key-eq key "id" entry i fi in ground arith

  hero_id :
      (index : Index) (key : String) (v : Json) (r : HeroData × List HeroTraitData)
      → build_hero py index key v ≡ ok r
      → r.0.external_id ≡ key
  unfolding build_hero hero_of
  hero_id index key v r h =
      let (entry, fe, h') = >>=-eq-ok (as_object v) _ h in
      let (i, fi, h'') = >>=-eq-ok (ensure_key_matches_id py key entry "id") _ h' in
      let k = ensure_key-eq key "id" entry i fi in ground arith

-- A relation is of a known trait.
abbrev pub IsKnown : Index → HeroTraitData → Type 0
IsKnown index r = is_some (Dict.lookup (r.relation_kind, r.trait_external_id) index) ≡ true

-- A relation is of a listed hero and a known trait.
abbrev pub IsClosedRelation : Index → List String → HeroTraitData → Type 0
IsClosedRelation index heroes r = (contains heroes r.hero_external_id ≡ true) × IsKnown index r

abbrev OfHero : Index → String → HeroTraitData → Type 0
OfHero index hero r = (r.hero_external_id ≡ hero) × IsKnown index r

relate-OfHero :
    (index : Index) (hero : String) (kind : TraitKind) (position : ℕ) (ids : List String)
    (rs : List HeroTraitData)
    → relate index hero kind position ids ≡ ok rs
    → All (OfHero index hero) rs
unfolding relate
relate-OfHero index hero kind position [] rs h = let e : rs ≡ [] = ground arith in rw e tt
relate-OfHero index hero kind position (i ∷ ids) rs h =
    let (u, fu, h') = >>=-eq-ok (guard (not (is_none (Dict.lookup (kind, i) index))) _) _ h in
    let (rest, fr, e) = >>=-eq-ok (relate index hero kind (suc position) ids) _ h' in
    let known = guard-ok (not (is_none (Dict.lookup (kind, i) index))) _ fu in
    let tail = relate-OfHero index hero kind (suc position) ids rest fr in
    let e' : rs
        ≡ record {
          hero_external_id = hero;
          trait_external_id = i;
          relation_kind = kind;
          position = position;
        }
          ∷ rest =
      ground arith in
    rw e' ((refl, ground arith), tail)

module _ (py : Builtins) where
  relations_of-OfHero :
      (index : Index) (i : String) (entry : Object) (rs : List HeroTraitData)
      → relations_of py index i entry ≡ ok rs
      → All (OfHero index i) rs
  unfolding relations_of
  relations_of-OfHero index i entry rs h =
      let (classes, _, k₁) = >>=-eq-ok (split_ids py ("0" ∷ "-1" ∷ []) (get "class" entry)) _ h in
      let (jobs, fj, k₂) = >>=-eq-ok (relate index i job 0 classes) _ k₁ in
      let (species, _, k₃) =
        >>=-eq-ok (split_ids py ("0" ∷ "-1" ∷ []) (get "species" entry)) _ k₂ in
      let (races, fs, k₄) = >>=-eq-ok (relate index i race 0 species) _ k₃ in
      let list : rs ≡ jobs ++ races = ground arith in
      subst (All (OfHero index i)) (sym list) (
        All-append (OfHero index i) jobs races (relate-OfHero index i job 0 classes jobs fj)
          (relate-OfHero index i race 0 species races fs))

  build_hero-relations :
      (index : Index) (key : String) (v : Json) (r : HeroData × List HeroTraitData)
      → build_hero py index key v ≡ ok r
      → (entry : Object) × (relations_of py index key entry ≡ ok r.1)
  unfolding build_hero
  build_hero-relations index key v r h =
      let (entry, _, h₁) = >>=-eq-ok (as_object v) _ h in
      let (i, fi, h₂) = >>=-eq-ok (ensure_key_matches_id py key entry "id") _ h₁ in
      let (hero, fh, h₃) = >>=-eq-ok (hero_of py i entry) _ h₂ in
      let (rs, fr, e) = >>=-eq-ok (relations_of py index i entry) _ h₃ in
      let i_eq : i ≡ key = ensure_key-eq py key "id" entry i fi in
      (entry, subst (λ x. relations_of py index x entry ≡ ok r.1) i_eq (fr ∙ ap ok (ground arith)))

  relations_closed :
      (index : Index) (all_ids : List String) (records : Object)
      (built : List (HeroData × List HeroTraitData))
      → each (build_hero py index) records ≡ ok built
      → All (λ k. contains all_ids k ≡ true) (keys records)
      → All (IsClosedRelation index all_ids) (flatten_relations built)
  unfolding each
  relations_closed index all_ids [] built h a = let e : built ≡ [] = ground arith in rw e tt
  relations_closed index all_ids ((k, v) ∷ records) built h (here, there) =
      let (r, fr, h') = >>=-eq-ok (build_hero py index k v) _ h in
      let (rest, fs, e) = >>=-eq-ok (each (build_hero py index) records) _ h' in
      let id = hero_id py index k v r fr in
      let (entry, fe) = build_hero-relations index k v r fr in
      let first =
        All-weaken (OfHero index k) (IsClosedRelation index all_ids) r.1
          (λ x (same, known). (rw same here, known)) (relations_of-OfHero index k entry r.1 fe) in
      let list : flatten_relations built ≡ r.1 ++ flatten_relations rest = ground arith in
      subst (All (IsClosedRelation index all_ids)) (sym list) (
        All-append (IsClosedRelation index all_ids) r.1 (flatten_relations rest) first
          (relations_closed index all_ids records rest fs there))

All-contained : (xs : List String) → All (λ k. contains xs k ≡ true) xs
All-contained [] = tt
All-contained (x ∷ xs) = (
  rw ==_refl,
  All-weaken (λ k. contains xs k ≡ true) (λ k. contains (x ∷ xs) k ≡ true) xs (λ k h. ground arith)
      (All-contained xs),
)

hero_ids-map :
    (built : List (HeroData × List HeroTraitData))
    → map (λ h. h.external_id) (map (λ (h, _). h) built) ≡ map (λ r. r.0.external_id) built
hero_ids-map [] = refl
hero_ids-map (r ∷ built) = ap (λ rest. r.0.external_id ∷ rest) (hero_ids-map built)

-- A hero's identifier is its record's key, in the order of the source; each relation is of a hero
-- of the snapshot and of a trait that the index has under the relation's kind.
pub build_heroes-closed :
    (py : Builtins) (raw : RawSnapshot) (index : Index) (hs : List HeroData)
    (rs : List HeroTraitData)
    → build_heroes py raw index ≡ ok (hs, rs)
    → (records : Object) × (data_of raw "chess" ≡ ok records)
      × (map (λ h. h.external_id) hs ≡ keys records)
      × All (IsClosedRelation index (map (λ h. h.external_id) hs)) rs
unfolding build_heroes
build_heroes-closed py raw index hs rs h =
    let (records, fr, h') = >>=-eq-ok (data_of raw "chess") _ h in
    let (built, fb, e) = >>=-eq-ok (each (build_hero py index) records) _ h' in
    let ids =
      each-keys (build_hero py index) (λ r. r.0.external_id) (hero_id py index) records built fb in
    let hs_eq : hs ≡ map (λ (h, _). h) built = ground arith in
    let rs_eq : rs ≡ flatten_relations built = ground arith in
    let named : map (λ h. h.external_id) hs ≡ keys records = rw hs_eq (hero_ids-map built ∙ ids) in
    (
      records,
      fr,
      named,
      rw (named, rs_eq)
          (relations_closed py index (keys records) records built fb
            (All-contained (keys records))),
    )

-- A recipe of a listed piece of equipment, from two listed components.
abbrev pub IsClosedRecipe : List String → EquipmentRecipeData → Type 0
IsClosedRecipe ids r =
    (contains ids r.equipment_external_id ≡ true)
    × (contains ids r.first_component_external_id ≡ true)
    × (contains ids r.second_component_external_id ≡ true)

recipe_of-closed :
    (ids : List String) (key : String) (cs : List String) (rs : List EquipmentRecipeData)
    → recipe_of ids key cs ≡ ok rs
    → contains ids key ≡ true
    → All (IsClosedRecipe ids) rs
unfolding recipe_of
recipe_of-closed ids key [] rs h k = let e : rs ≡ [] = ground arith in rw e tt
recipe_of-closed ids key (a ∷ []) rs h k = cc
recipe_of-closed ids key (a ∷ b ∷ c ∷ cs) rs h k = cc
recipe_of-closed ids key (a ∷ b ∷ []) rs h k =
    elim (Bool-cases (contains ids a && contains ids b)) [
      | inl t ↦
          let e : rs
              ≡ record {
                equipment_external_id = key;
                first_component_external_id = a;
                second_component_external_id = b;
              }
                ∷ [] =
            ground arith in
          rw e ((k, ground arith, ground arith), tt)
      | inr f ↦ absurd (ground arith)
    ]

recipes_closed :
    (py : Builtins) (ids : List String) (records : Object) (built : List (List EquipmentRecipeData))
    → each (build_recipe py ids) records ≡ ok built
    → All (λ k. contains ids k ≡ true) (keys records)
    → All (IsClosedRecipe ids) (concat built)
unfolding each build_recipe
recipes_closed py ids [] built h a = let e : built ≡ [] = ground arith in rw e tt
recipes_closed py ids ((k, v) ∷ records) built h (here, there) =
    let (r, fr, h₁) = >>=-eq-ok (build_recipe py ids k v) _ h in
    let (rest, fs, _) = >>=-eq-ok (each (build_recipe py ids) records) _ h₁ in
    let (entry, _, k₁) = >>=-eq-ok (as_object v) _ fr in
    let (first, _, k₂) = >>=-eq-ok (optional_string py entry "synthesis1") _ k₁ in
    let (second, _, k₃) = >>=-eq-ok (optional_string py entry "synthesis2") _ k₂ in
    let list : concat built ≡ r ++ concat rest = ground arith in
    subst (All (IsClosedRecipe ids)) (sym list) (
      All-append (IsClosedRecipe ids) r (concat rest)
        (recipe_of-closed ids k (component first (component second [])) r k₃ here)
        (recipes_closed py ids records rest fs there))

-- A piece of equipment has its record's key for identifier, in the order of the source; each recipe
-- makes a piece of the snapshot from two pieces of the snapshot.
pub build_equipment-closed :
    (py : Builtins) (raw : RawSnapshot) (es : List EquipmentData) (rs : List EquipmentRecipeData)
    → build_equipment py raw ≡ ok (es, rs)
    → (records : Object) × (data_of raw "equip" ≡ ok records)
      × (map (λ e. e.external_id) es ≡ keys records)
      × All (IsClosedRecipe (map (λ e. e.external_id) es)) rs
unfolding build_equipment
build_equipment-closed py raw es rs h =
    let (records, fr, h₁) = >>=-eq-ok (data_of raw "equip") _ h in
    let (built, fb, h₂) = >>=-eq-ok (each (build_item py) records) _ h₁ in
    let ids = each-keys (build_item py) (λ e. e.external_id) (item_id py) records built fb in
    let (recipes, fc, e) =
      >>=-eq-ok (each (build_recipe py (map (λ e. e.external_id) built)) records) _ h₂ in
    let es_eq : es ≡ built = ground arith in
    let rs_eq : rs ≡ concat recipes = ground arith in
    let named : map (λ e. e.external_id) es ≡ keys records = rw es_eq ids in
    let fc' = rw ids at fc in
    (
      records,
      fr,
      named,
      rw (named, rs_eq)
          (recipes_closed py (keys records) records recipes fc' (All-contained (keys records))),
    )
