-- ===== src/Jcc/Store/Complete.antt =====
-- The import inserts exactly what the incoming snapshot has, so that a further import finds it complete.
use tsuz_api_jcc.Base.{
  ℕ, suc, ◌+◌, ◌≤◌, ◌<◌, String, Bool, true, false, ◌&&◌, ◌||◌, List, [], ◌∷◌, ◌++◌, keep, any,
  length, All, All-append, All-weaken, Eq, ◌==◌, string_eq, nat_eq, option_eq, if◌then◌else◌, ◌≡◌,
  refl, arith,
}
use tsuz_api_jcc.Base.Dict
use tsuz_api_jcc.Base.Dict.{Dict}
use tsuz_api_jcc.Base.Result.{ok, >>=-eq-ok}
use tsuz_api_jcc.Jcc.Adapters.Data.{TraitKind, key_eq, TraitData, TraitTierData}
use tsuz_api_jcc.Jcc.Store.{
  Row, Table, add, add_all, add_keyed, add_traits, without_tiers, same_trait, same_tier, sum_tiers,
}

module _ {A : Type 0} where
  -- The number of rows whose owner passes a test.
  abbrev pub owned : (ℕ → Bool) → List (Row A) → ℕ
  owned p rows = length (keep (λ r. p r.owner) rows)

  owned-append :
      (p : ℕ → Bool) (rows : List (Row A)) (r : Row A)
      → owned p (rows ++ r ∷ []) ≡ owned p rows + (if p r.owner then 1 else 0)
  owned-append p [] r = ground arith
  owned-append p (x ∷ rows) r = ground (arith, owned-append p rows r)

  -- A row that `add` appends.
  add-eq :
      (same : A → A → Bool) (owner i : ℕ) (x : A) (t u : Table A)
      → add same owner x t ≡ ok (i, u)
      → (i ≡ t.next)
        × (u ≡ record {
          next = suc t.next;
          rows = t.rows ++ record { id = t.next; owner = owner; value = x } ∷ [];
        })
  unfolding add
  add-eq same owner i x t u h = ground arith

  owned-add :
      (p : ℕ → Bool) (same : A → A → Bool) (owner i : ℕ) (x : A) (t u : Table A)
      → add same owner x t ≡ ok (i, u)
      → owned p u.rows ≡ owned p t.rows + (if p owner then 1 else 0)
  owned-add p same owner i x t u h =
      let (_, e) = add-eq same owner i x t u h in
      rw e (owned-append p t.rows (record { id = t.next; owner = owner; value = x }))

  pub owned-add_all :
      (p : ℕ → Bool) (same : A → A → Bool) (owner : ℕ) (xs : List A) (t u : Table A)
      → add_all same owner xs t ≡ ok u
      → p owner ≡ true
      → owned p u.rows ≡ owned p t.rows + length xs
  unfolding add_all
  owned-add_all p same owner [] t u h e = ground arith
  owned-add_all p same owner (x ∷ xs) t u h e =
      let ((i, v), fv, h') = >>=-eq-ok (add same owner x t) _ h in
      let a = owned-add p same owner i x t v fv in
      ground (arith, owned-add_all p same owner xs v u h' e)

  pub owned-add_keyed :
      {K : Type 0} ⦃k : Eq K⦄ (p : ℕ → Bool) (same : A → A → Bool) (key : A → K) (owner : ℕ)
      (xs : List A) (ids ids' : Dict K ℕ) (t u : Table A)
      → add_keyed same key owner xs ids t ≡ ok (ids', u)
      → p owner ≡ true
      → owned p u.rows ≡ owned p t.rows + length xs
  unfolding add_keyed
  owned-add_keyed p same key owner [] ids ids' t u h e = ground arith
  owned-add_keyed p same key owner (x ∷ xs) ids ids' t u h e =
      let ((i, v), fv, h') = >>=-eq-ok (add same owner x t) _ h in
      let a = owned-add p same owner i x t v fv in
      ground (arith, owned-add_keyed p same key owner xs (Dict.insert (key x) i ids) ids' v u h' e)

  -- All owners are below a bound.
  abbrev pub OwnersBelow : ℕ → List (Row A) → Type 0
  OwnersBelow n = All (λ r. r.owner < n)

  pub owned-below :
      (n : ℕ) (rows : List (Row A)) → OwnersBelow n rows → owned (λ o. o == n) rows ≡ 0
  owned-below n [] h = refl
  owned-below n (r ∷ rows) (a, h) = ground (arith, owned-below n rows h)

  pub below-weaken :
      (n m : ℕ) (rows : List (Row A)) → n ≤ m → OwnersBelow n rows → OwnersBelow m rows
  below-weaken n m rows le h =
      All-weaken (λ r. r.owner < n) (λ r. r.owner < m) rows (λ r a. omega arith) h

  below-add :
      (same : A → A → Bool) (owner i n : ℕ) (x : A) (t u : Table A)
      → add same owner x t ≡ ok (i, u)
      → owner < n
      → OwnersBelow n t.rows
      → OwnersBelow n u.rows
  below-add same owner i n x t u h o a =
      let (_, e) = add-eq same owner i x t u h in
      rw e (
        All-append (λ r. r.owner < n) t.rows (record { id = t.next; owner = owner; value = x } ∷ [])
          a (o, tt))

  pub below-add_all :
      (same : A → A → Bool) (owner n : ℕ) (xs : List A) (t u : Table A)
      → add_all same owner xs t ≡ ok u
      → owner < n
      → OwnersBelow n t.rows
      → OwnersBelow n u.rows
  unfolding add_all
  below-add_all same owner n [] t u h o a = let e : u ≡ t = ground arith in rw e a
  below-add_all same owner n (x ∷ xs) t u h o a =
      let ((i, v), fv, h') = >>=-eq-ok (add same owner x t) _ h in
      below-add_all same owner n xs v u h' o (below-add same owner i n x t v fv o a)

  pub below-add_keyed :
      {K : Type 0} ⦃k : Eq K⦄ (same : A → A → Bool) (key : A → K) (owner n : ℕ) (xs : List A)
      (ids ids' : Dict K ℕ) (t u : Table A)
      → add_keyed same key owner xs ids t ≡ ok (ids', u)
      → owner < n
      → OwnersBelow n t.rows
      → OwnersBelow n u.rows
  unfolding add_keyed
  below-add_keyed same key owner n [] ids ids' t u h o a = let e : u ≡ t = ground arith in rw e a
  below-add_keyed same key owner n (x ∷ xs) ids ids' t u h o a =
      let ((i, v), fv, h') = >>=-eq-ok (add same owner x t) _ h in
      below-add_keyed same key owner n xs (Dict.insert (key x) i ids) ids' v u h' o
        (below-add same owner i n x t v fv o a)

-- Whether a trait of the snapshot has a key.
abbrev pub trait_of : ℕ → List (Row TraitData) → ℕ → Bool
trait_of i traits o = any (λ r. r.id == o && r.owner == i) traits

trait_of-append :
    (i o : ℕ) (traits : List (Row TraitData)) (r : Row TraitData)
    → trait_of i (traits ++ r ∷ []) o ≡ (trait_of i traits o || (r.id == o && r.owner == i))
trait_of-append i o [] r = ground arith
trait_of-append i o (x ∷ traits) r = ground (arith, trait_of-append i o traits r)

trait_of-none :
    (i o : ℕ) (traits : List (Row TraitData)) → OwnersBelow i traits → trait_of i traits o ≡ false
trait_of-none i o [] h = refl
trait_of-none i o (x ∷ traits) (a, h) = ground (arith, trait_of-none i o traits h)

-- A new trait does not change which tiers of older traits are counted.
owned-trait_of :
    (i n : ℕ) (traits : List (Row TraitData)) (r : Row TraitData) (tiers : List (Row TraitTierData))
    → OwnersBelow n tiers
    → r.id ≡ n
    → owned (trait_of i (traits ++ r ∷ [])) tiers ≡ owned (trait_of i traits) tiers
owned-trait_of i n traits r [] h e = refl
owned-trait_of i n traits r (x ∷ tiers) (a, h) e =
    ground (arith, trait_of-append i x.owner traits r, owned-trait_of i n traits r tiers h e)

pub record TraitsDone (i k : ℕ) (ts us : Table TraitData) (tiers tiers' : Table TraitTierData)
    (sum : ℕ) : Type 0 where
  pub rows : owned (λ o. o == i) us.rows ≡ owned (λ o. o == i) ts.rows + k
  pub tiers_of :
      owned (trait_of i us.rows) tiers'.rows ≡ owned (trait_of i ts.rows) tiers.rows + sum
  pub below : OwnersBelow us.next tiers'.rows
  pub grown : ts.next ≤ us.next

pub add_traits-done :
    (i : ℕ) (xs : List TraitData) (ids ids' : Dict (TraitKind × String) ℕ) (ts us : Table TraitData)
    (tiers tiers' : Table TraitTierData)
    → add_traits i xs ids ts tiers ≡ ok (ids', us, tiers')
    → OwnersBelow ts.next tiers.rows
    → TraitsDone i (length xs) ts us tiers tiers' (sum_tiers xs)
unfolding add_traits
add_traits-done i [] ids ids' ts us tiers tiers' h b =
    let e : us ≡ ts = ground arith in
    let f : tiers' ≡ tiers = ground arith in
    rw (e, f)
      (record { rows = omega arith; tiers_of = omega arith; below = b; grown = omega arith })
add_traits-done i (x ∷ xs) ids ids' ts us tiers tiers' h b =
    let ((j, vs), fv, h₁) = >>=-eq-ok (add same_trait i (without_tiers x) ts) _ h in
    let (mid, fm, h₂) = >>=-eq-ok (add_all same_tier j x.tiers tiers) _ h₁ in
    let (k, e) = add-eq same_trait i j (without_tiers x) ts vs fv in
    let row : Row TraitData = record { id = ts.next; owner = i; value = without_tiers x } in
    let rows : vs.rows ≡ ts.rows ++ row ∷ [] = rw e refl in
    let next : vs.next ≡ suc ts.next = rw e refl in
    let below =
      below-add_all same_tier j vs.next x.tiers tiers mid fm (omega arith)
        (below-weaken ts.next vs.next tiers.rows (omega arith) b) in
    let rest =
      add_traits-done i xs (Dict.insert (x.kind, x.external_id) j ids) ids' vs us mid tiers' h₂
        below in
    let here : trait_of i vs.rows j ≡ true =
      rw (rows, k) (ground (arith, trait_of-append i ts.next ts.rows row)) in
    let one = owned-add (λ o. o == i) same_trait i j (without_tiers x) ts vs fv in
    let old : owned (trait_of i vs.rows) tiers.rows ≡ owned (trait_of i ts.rows) tiers.rows =
      rw rows (owned-trait_of i ts.next ts.rows row tiers.rows b refl) in
    let more = owned-add_all (trait_of i vs.rows) same_tier j x.tiers tiers mid fm here in
    record {
      rows = ground (arith, rest.rows, one);
      tiers_of = omega (arith, rest.tiers_of, more, old);
      below = rest.below;
      grown = omega (arith, rest.grown, next);
    }

pub add_traits-below :
    (i n : ℕ) (xs : List TraitData) (ids ids' : Dict (TraitKind × String) ℕ)
    (ts us : Table TraitData) (tiers tiers' : Table TraitTierData)
    → add_traits i xs ids ts tiers ≡ ok (ids', us, tiers')
    → i < n
    → OwnersBelow n ts.rows
    → OwnersBelow n us.rows
unfolding add_traits
add_traits-below i n [] ids ids' ts us tiers tiers' h o b = let e : us ≡ ts = ground arith in rw e b
add_traits-below i n (x ∷ xs) ids ids' ts us tiers tiers' h o b =
    let ((j, vs), fv, h₁) = >>=-eq-ok (add same_trait i (without_tiers x) ts) _ h in
    let (mid, _, h₂) = >>=-eq-ok (add_all same_tier j x.tiers tiers) _ h₁ in
    add_traits-below i n xs (Dict.insert (x.kind, x.external_id) j ids) ids' vs us mid tiers' h₂ o
      (below-add same_trait i j n (without_tiers x) ts vs fv o b)

-- No tier is counted for a snapshot that has no trait.
pub owned-trait_of-none :
    (i : ℕ) (traits : List (Row TraitData)) (tiers : List (Row TraitTierData))
    → OwnersBelow i traits
    → owned (trait_of i traits) tiers ≡ 0
owned-trait_of-none i traits [] h = refl
owned-trait_of-none i traits (x ∷ tiers) h =
    ground (arith, trait_of-none i x.owner traits h, owned-trait_of-none i traits tiers h)
