-- ===== src/Jcc/Queries/Pages.antt =====
-- app/jcc_data/repository.py: the order of a listing, and its pages put together.
use tsuz_api_jcc.Base.{
  ℕ, zero, suc, ◌+◌, ◌*◌, ◌≤◌, String, Bool, true, false, ◌&&◌, not, some, List, [], length, map,
  ◌==◌, string_eq, nat_eq, ==→≡, ==_refl, ◌≡◌, refl, sym, ap, ◌∙◌, arith,
}
use tsuz_api_jcc.Base.Members.{Has, Has-keep, keep-Has, Has-sort_by, sort_by-Has}
use tsuz_api_jcc.Base.Orders.{Has-All, sort_by-apart, ordered_unique}
use tsuz_api_jcc.Base.Query.{
  page, pages, pages-page, then_by, sort_by, IsOrdered, IsOrdered-sort_by, IsOrdered-keep,
}
use tsuz_api_jcc.Base.Result.{ok, err}
use tsuz_api_jcc.Base.Text.{str_length}
use tsuz_api_jcc.Jcc.Adapters.Data.{HeroData}
use tsuz_api_jcc.Jcc.Store.{Row, SnapshotRow, Store}
use tsuz_api_jcc.Jcc.Queries.{
  Database, SnapshotListResult, Answer, HeroFilters, matching_heroes, hero_matches,
  list_current_heroes, current_snapshot, stable_order, by_ℕ,
}
use tsuz_api_jcc.Jcc.Queries.Answers.{hero_answer, list_current_heroes-answer}

abbrev pub items_of : {A : Type 0} → Answer (SnapshotListResult A) → List A
items_of (ok r) = r.items
items_of (err _) = []

pages-congruence :
    {A : Type 0} (f g : ℕ → List A) (limit n offset : ℕ)
    → ((o : ℕ) → f o ≡ g o)
    → pages f limit offset n ≡ pages g limit offset n
pages-congruence f g limit zero offset h = refl
pages-congruence f g limit (suc n) offset h =
    rw (h offset, pages-congruence f g limit n (offset + limit) h) refl

-- What a database documents of the order of its texts.
pub record IsTextOrder (le : String → String → Bool) : Type 0 where
  pub total : (a b : String) → le a b ≡ false → le b a ≡ true
  pub trans : (a b c : String) → le a b ≡ true → le b c ≡ true → le a c ≡ true
  pub antisym : (a b : String) → le a b ≡ true → le b a ≡ true → a ≡ b

module _ {A : Type 0} (first second : A → A → Bool) where
  then_by_total :
      ((a b : A) → first a b ≡ false → first b a ≡ true)
      → ((a b : A) → second a b ≡ false → second b a ≡ true)
      → (a b : A) → then_by first second a b ≡ false
      → then_by first second b a ≡ true
  then_by_total f s a b h = ground (arith, h, f a b, s a b)

  then_by_trans :
      ((a b c : A) → first a b ≡ true → first b c ≡ true → first a c ≡ true)
      → ((a b c : A) → second a b ≡ true → second b c ≡ true → second a c ≡ true)
      → (a b c : A) → then_by first second a b ≡ true
      → then_by first second b c ≡ true
      → then_by first second a c ≡ true
  then_by_trans f s a b c h k = ground (arith, h, k, f a b c, f c a b, f b c a, f c b a, s a b c)

  then_by_second :
      (a b : A)
      → then_by first second a b ≡ true
      → then_by first second b a ≡ true
      → (second a b ≡ true) × (second b a ≡ true)
  then_by_second a b h k = ground (arith, h, k)

-- The unique pair of `jcc_heroes`, a snapshot and an identifier, tells two rows apart.
abbrev pub apart : Row HeroData → Row HeroData → Bool
apart a b = not (a.owner == b.owner && a.value.external_id == b.value.external_id)

module _ (db : Database) where
  abbrev pub hero_order : Row HeroData → Row HeroData → Bool
  hero_order = stable_order db (λ (h : Row HeroData). h.value.external_id)

  -- What a database may answer to the listing's statement without its page: the rows of the table that match, each once, in
  -- any order that its `ORDER BY` permits.
  pub record IsListing (i : ℕ) (f : HeroFilters db) (s : Store) (rows : List (Row HeroData))
      : Type 0 where
    pub ordered : IsOrdered hero_order rows
    pub once : IsOrdered apart rows
    pub matches :
        (a : Row HeroData) → Has rows a → Has s.heroes.rows a × (hero_matches db i f s a ≡ true)
    pub complete :
        (a : Row HeroData) → Has s.heroes.rows a → hero_matches db i f s a ≡ true → Has rows a

  module _ (laws : IsTextOrder db.text_le) (i : ℕ) (f : HeroFilters db) (s : Store) where
    hero_order_total : (a b : Row HeroData) → hero_order a b ≡ false → hero_order b a ≡ true
    unfolding stable_order
    hero_order_total =
        then_by_total (by_ℕ (λ a. str_length a.value.external_id)) _ (λ a b h. ground arith)
          (λ a b. laws.total a.value.external_id b.value.external_id)

    hero_order_trans :
        (a b c : Row HeroData)
        → hero_order a b ≡ true
        → hero_order b c ≡ true
        → hero_order a c ≡ true
    unfolding stable_order
    hero_order_trans =
        then_by_trans (by_ℕ (λ a. str_length a.value.external_id)) _ (λ a b c h k. ground arith)
          (λ a b c. laws.trans a.value.external_id b.value.external_id c.value.external_id)

    -- Rows of one snapshot that may stand either way have one identifier.
    hero_order_clash :
        (a b : Row HeroData)
        → a.owner ≡ i
        → b.owner ≡ i
        → hero_order a b ≡ true
        → hero_order b a ≡ true
        → apart a b ≡ false
    unfolding stable_order
    hero_order_clash a b p q h k =
        let (before, behind) =
          then_by_second (by_ℕ (λ (x : Row HeroData). str_length x.value.external_id))
            (λ x y. db.text_le x.value.external_id y.value.external_id) a b h k in
        let same = laws.antisym a.value.external_id b.value.external_id before behind in
        ground (arith, p, q, same)

    apart_symmetric : (a b : Row HeroData) → apart a b ≡ true → apart b a ≡ true
    apart_symmetric a b h = ground (arith, h)

    apart_itself : (a : Row HeroData) → apart a a ≡ false
    apart_itself a = ground (arith, ==_refl a.owner, ==_refl a.value.external_id)

    matches_owner : (a : Row HeroData) → hero_matches db i f s a ≡ true → a.owner ≡ i
    unfolding hero_matches
    matches_owner a h = ==→≡ a.owner i (ground (arith, h))

    pub matching-IsListing :
        IsOrdered apart s.heroes.rows → IsListing i f s (matching_heroes db i f s)
    matching-IsListing unique =
        let sorted = sort_by hero_order s.heroes.rows in
        record {
          ordered =
              IsOrdered-keep hero_order (hero_matches db i f s) sorted
                (IsOrdered-sort_by hero_order hero_order_total hero_order_trans s.heroes.rows);
          once =
              IsOrdered-keep apart (hero_matches db i f s) sorted
                (sort_by-apart hero_order apart apart_symmetric s.heroes.rows unique);
          matches = λ a h.
              let (k, m) = keep-Has (hero_matches db i f s) sorted a h in
              (sort_by-Has hero_order s.heroes.rows a k, m);
          complete = λ a h m.
              Has-keep (hero_matches db i f s) sorted a (Has-sort_by hero_order s.heroes.rows a h)
                m;
        }

    listing_unique :
        (rows rows' : List (Row HeroData))
        → IsListing i f s rows
        → IsListing i f s rows'
        → rows ≡ rows'
    listing_unique rows rows' l m =
        ordered_unique hero_order apart (λ a. a.owner ≡ i) hero_order_clash apart_itself rows rows'
          (Has-All (λ (a : Row HeroData). a.owner ≡ i) rows
            (λ a h. matches_owner a (l.matches a h).1))
          (Has-All (λ (a : Row HeroData). a.owner ≡ i) rows'
            (λ a h. matches_owner a (m.matches a h).1))
          l.ordered m.ordered l.once m.once (λ a h. let (k, t) = l.matches a h in m.complete a k t)
          (λ a h. let (k, t) = m.matches a h in l.complete a k t)

    -- On a database with a total order of texts, whose heroes are unique in snapshot and identifier: let it order the rows of
    -- each query of a listing in any way that the `ORDER BY` of the statement permits. Then every query answers the page of
    -- its own ordering, and enough pages of a size are together the whole listing, each matching hero once.
    pub list_current_heroes-pages :
        (mode : String) (limit n : ℕ) (r : SnapshotRow) (answers : ℕ → List (Row HeroData))
        → current_snapshot mode s ≡ some r
        → r.id ≡ i
        → IsOrdered apart s.heroes.rows
        → ((o : ℕ) → IsListing i f s (answers o))
        → length (answers 0) ≤ n * limit
        → ((o : ℕ)
            → items_of (list_current_heroes db mode f limit o s)
              ≡ map (hero_answer db i s) (page limit o (answers o)))
          × (pages (λ o. page limit o (answers o)) limit 0 n ≡ answers 0)
    list_current_heroes-pages mode limit n r answers now same unique listed enough =
        let is_listing = matching-IsListing unique in
        let at_ : (o : ℕ) → matching_heroes db i f s ≡ answers o =
          λ o. listing_unique (matching_heroes db i f s) (answers o) is_listing (listed o) in
        (
          λ o.
              ap items_of (list_current_heroes-answer db mode f limit o s)
              ∙ rw (now, same) (ap (λ rows. map (hero_answer db i s) (page limit o rows)) (at_ o)),
          pages-congruence _ (λ o. page limit o (answers 0)) limit n 0
                (λ o. ap (page limit o) (sym (at_ o) ∙ at_ 0))
              ∙ pages-page (answers 0) limit n 0 (omega (arith, enough)),
        )
