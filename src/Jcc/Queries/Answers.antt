-- ===== src/Jcc/Queries/Answers.antt =====
-- app/jcc_data/repository.py: what the lists of the current snapshot answer, row by row.
use mathlib.Core.List.{append-nil, append_assoc}
use tsuz_api_jcc.Base.{
  ◌⊎◌, ℕ, String, Bool, true, false, ◌&&◌, some, List, [], ◌∷◌, ◌++◌, keep, length, contains, map,
  ◌==◌, string_eq, nat_eq, All, All-weaken, ◌≡◌, refl, sym, ap, ◌∙◌, arith, Bool-cases, inl, inr,
  ==→≡, ==_refl,
}
use tsuz_api_jcc.Base.Dict
use tsuz_api_jcc.Base.Dict.{Dict}
use tsuz_api_jcc.Base.Query.{select, page, blank, absorb, fold, absorb-blank, sort_by}
use tsuz_api_jcc.Base.Result.{Result-cases, ok, ◌>>=◌}
use tsuz_api_jcc.Jcc.Adapters.Data.{TraitKind, race, job, HeroData, TraitData}
use tsuz_api_jcc.Jcc.Store.{Row, Store}
use tsuz_api_jcc.Jcc.Queries.{
  Database, HeroWithTraits, SnapshotListResult, Answer, required_current_snapshot, each, found,
  Joined, relations, relation_order, of_heroes, add_trait, load_hero_traits, hero_with,
  heroes_with_traits, HeroFilters, matching_heroes, list_current_heroes,
}

All-keep-true {ℓ} : {A : Type ℓ} (p : A → Bool) (xs : List A) → All (λ x. p x ≡ true) (keep p xs)
All-keep-true p [] = tt
All-keep-true p (x ∷ xs) = elim (Bool-cases (p x)) [
  | inl yes_ ↦ rw yes_ (yes_, All-keep-true p xs)
  | inr no_ ↦ rw no_ (All-keep-true p xs)
]

keep-keep {ℓ} :
    {A : Type ℓ} (p q r : A → Bool) (xs : List A)
    → ((x : A) → (p x && q x) ≡ r x)
    → keep q (keep p xs) ≡ keep r xs
keep-keep p q r [] h = refl
keep-keep p q r (x ∷ xs) h = ground (arith, h x, keep-keep p q r xs h)

Kind-cases : (k : TraitKind) → (k ≡ race) ⊎ (k ≡ job)
Kind-cases race = inl refl
Kind-cases job = inr refl

pub map_ext {ℓ κ} :
    {A : Type ℓ} {B : Type κ} (f g : A → B) (xs : List A)
    → ((x : A) → f x ≡ g x)
    → map f xs ≡ map g xs
map_ext f g [] h = refl
map_ext f g (x ∷ xs) h = rw (h x, map_ext f g xs h) refl

module _ {A : Type 0} (ident : A → ℕ) where
  All-contains-map : (xs : List A) → All (λ x. contains (map ident xs) (ident x) ≡ true) xs
  All-contains-map [] = tt
  All-contains-map (x ∷ xs) = (
    ground (arith, ==_refl (ident x)),
    All-weaken _ _ xs (λ y h. ground (arith, h)) (All-contains-map xs),
  )

  module _ {R V B : Type 0} (key : R → ℕ) (change : V → R → V) (start : V) (build : A → V → B) where
    each-found :
        (grouped : Dict ℕ V) (g : A → V) (ys : List A)
        → All (λ y. Dict.lookup (ident y) grouped ≡ some (g y)) ys
        → each (λ y. found (Dict.lookup (ident y) grouped) >>= λ v. ok (build y v)) ys
          ≡ ok (map (λ y. build y (g y)) ys)
    each-found grouped g [] h = refl
    each-found grouped g (y ∷ ys) (p, h) = rw (p, each-found grouped g ys h) refl

    -- Rows that are read for the items together, and grouped, are those of each item.
    pub each_grouped :
        (p : List ℕ → R → Bool) (own : A → R → Bool) (rows : List R) (xs : List A)
        → ((ks : List ℕ) (r : R) → p ks r ≡ true → contains ks (key r) ≡ true)
        → ((ks : List ℕ) (x : A) (r : R)
            → contains ks (ident x) ≡ true
            → (p ks r && ident x == key r) ≡ own x r)
        → (found (absorb key change (keep (p (map ident xs)) rows) (blank start (map ident xs)))
            >>= λ grouped.
                each (λ x. found (Dict.lookup (ident x) grouped) >>= λ v. ok (build x v)) xs)
          ≡ ok (map (λ x. build x (fold change start (keep (own x) rows))) xs)
    each_grouped p own rows xs inside owned =
        let ks = map ident xs in
        let (grouped, e, same) = absorb-blank key change start ks (keep (p ks) rows) (
          All-weaken (λ r. p ks r ≡ true) (λ r. contains ks (key r) ≡ true) (keep (p ks) rows)
            (inside ks) (All-keep-true (p ks) rows)) in
        let g = λ (x : A). fold change start (keep (own x) rows) in
        rw e (
          each-found grouped g xs (
            All-weaken (λ x. contains ks (ident x) ≡ true)
              (λ x. Dict.lookup (ident x) grouped ≡ some (g x)) xs
              (λ x h.
                same (ident x) h
                ∙ ap (λ l. some (fold change start l))
                    (keep-keep (p ks) (λ r. ident x == key r) (own x) rows (λ r. owned ks x r h)))
              (All-contains-map xs)))

-- The items that a page answers, whatever the page.
abbrev pub answer : {A : Type 0} → String → Store → (ℕ → List A × ℕ) → Answer (SnapshotListResult A)
answer mode s content = do
  r ← required_current_snapshot mode s
  ok (record { snapshot = r; items = (content r.id).0; total = (content r.id).1 })

module _ (db : Database) where
  -- The relations of one hero to the traits of a snapshot, in order.
  unfoldable pub own_relations : ℕ → Store → Row HeroData → Joined db → Bool
  own_relations snapshot_id s h (r, t) =
      r.owner == snapshot_id && t.owner == snapshot_id && h.id == r.value.hero_id

  abbrev is_kind : TraitKind → TraitKind → Bool
  is_kind race race = true
  is_kind job job = true
  is_kind _ _ = false

  -- The traits of the relations of a kind.
  abbrev of_kind : TraitKind → List (Joined db) → List (Row TraitData)
  of_kind kind rows = map (λ (_, t). t) (keep (λ (r, _). is_kind kind r.value.relation_kind) rows)

  -- The traits of a kind that a hero is related to.
  abbrev pub traits_of : TraitKind → ℕ → Store → Row HeroData → List (Row TraitData)
  traits_of kind snapshot_id s h =
      of_kind kind (select (own_relations snapshot_id s h) (relation_order db) (relations db s))

  abbrev pub hero_answer : ℕ → Store → Row HeroData → HeroWithTraits
  hero_answer snapshot_id s h = record {
    hero = h;
    traits = traits_of race snapshot_id s h;
    classes = traits_of job snapshot_id s h;
  }

  fold-add_trait :
      (rows : List (Joined db)) (traits classes : List (Row TraitData))
      → fold (add_trait db) (traits, classes) rows
        ≡ (traits ++ of_kind race rows, classes ++ of_kind job rows)
  fold-add_trait [] traits classes =
      ap (λ l. (l, classes)) (sym (append-nil traits))
      ∙ ap (λ l. (traits ++ [], l)) (sym (append-nil classes))
  fold-add_trait ((r, t) ∷ rows) traits classes = elim (Kind-cases r.value.relation_kind) [
    | inl is_race ↦ rw is_race (
        fold-add_trait rows (traits ++ t ∷ []) classes
        ∙ ap (λ l. (l, classes ++ of_kind job rows))
            (append_assoc traits (t ∷ []) (of_kind race rows)))
    | inr is_job ↦ rw is_job (
        fold-add_trait rows traits (classes ++ t ∷ [])
        ∙ ap (λ l. (traits ++ of_kind race rows, l))
            (append_assoc classes (t ∷ []) (of_kind job rows)))
  ]

  heroes_with_traits-hero_answer :
      (snapshot_id : ℕ) (heroes : List (Row HeroData)) (s : Store)
      → heroes_with_traits db snapshot_id heroes s ≡ ok (map (hero_answer snapshot_id s) heroes)
  unfolding heroes_with_traits load_hero_traits own_relations
  heroes_with_traits-hero_answer snapshot_id heroes s =
      each_grouped (λ (h : Row HeroData). h.id) (λ (x : Joined db). x.0.value.hero_id)
        (add_trait db) ([], []) (hero_with db) (of_heroes db snapshot_id)
        (own_relations snapshot_id s) (sort_by (relation_order db) (relations db s)) heroes
        (λ ks (r, t) h. ground (arith, h))
        (λ ks x (r, t) h. ground (arith, h, ==→≡ x.id r.value.hero_id))
      ∙ ap ok (
          map_ext _ (hero_answer snapshot_id s) heroes (λ h. ap (hero_with db h) (
            fold-add_trait
              (select (own_relations snapshot_id s h) (relation_order db) (relations db s)) [] [])))

  pub list_current_heroes-answer :
      (mode : String) (f : HeroFilters db) (limit offset : ℕ) (s : Store)
      → list_current_heroes db mode f limit offset s
        ≡ answer mode s (λ i.
          let heroes = matching_heroes db i f s in
          (map (hero_answer i s) (page limit offset heroes), length heroes))
  unfolding list_current_heroes
  list_current_heroes-answer mode f limit offset s =
      elim (Result-cases (required_current_snapshot mode s)) [
        | inl (r, e) ↦ rw e (
            ap
              (λ l. l >>= λ items. ok (record {
                snapshot = r;
                items = items;
                total = length (matching_heroes db r.id f s);
              }))
              (heroes_with_traits-hero_answer r.id (page limit offset (matching_heroes db r.id f s))
                s))
        | inr (e, h) ↦ rw h refl
      ]
