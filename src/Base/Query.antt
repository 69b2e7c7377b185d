-- ===== src/Base/Query.antt =====
-- What `select` does to the rows of tables: joins, orders and pages, and the grouping of its result by a key.
use Prim.Native.Nat.{ℕ, zero, suc, ◌+◌, ◌*◌, ◌≤◌}
use mathlib.Core.Path.{◌≡◌, refl, sym, ap, ◌∙◌}
use mathlib.Core.Bool.{Bool, true, false}
use mathlib.Core.Option.{Option, none, some, some-injective}
use mathlib.Core.List.{List, [], ◌∷◌, ◌++◌, map}
use native.Mathlib.Omega.{arith}
use tsuz_api_jcc.Base.Equality.{if-intro, ◌==◌, ==→≡, Bool-cases, if◌then◌else◌, contains, nat_eq}
use mathlib.Core.Logic.{inl, inr}
use tsuz_api_jcc.Base.Lists.{length, keep, take, drop, drop-drop, drop_nil, All, All-weaken}
use tsuz_api_jcc.Base.Dict.{Dict, lookup, insert, lookup-insert}

module _ {ℓ} {A : Type ℓ} where
  -- An order on rows is given by what may stand before what.
  abbrev pub insert_sorted : (A → A → Bool) → A → List A → List A
  insert_sorted le x [] = x ∷ []
  insert_sorted le x (y ∷ ys) =
      let rest = insert_sorted le x ys in if le x y then x ∷ y ∷ ys else y ∷ rest

  unfoldable pub sort_by : (A → A → Bool) → List A → List A
  sort_by le [] = []
  sort_by le (x ∷ xs) = insert_sorted le x (sort_by le xs)

  -- `ORDER BY` a first key, then a second.
  abbrev pub then_by : (A → A → Bool) → (A → A → Bool) → A → A → Bool
  then_by first second a b = if first a b then (if first b a then second a b else true) else false

  -- `SELECT ... WHERE p ORDER BY le`
  abbrev pub select : (A → Bool) → (A → A → Bool) → List A → List A
  select p le rows = keep p (sort_by le rows)

  -- `LIMIT limit OFFSET offset`
  abbrev pub page : ℕ → ℕ → List A → List A
  page limit offset rows = take limit (drop offset rows)

  -- The pages of a size, one after the other from an offset on.
  abbrev pub pages : (ℕ → List A) → ℕ → ℕ → ℕ → List A
  pages at_ limit offset zero = []
  pages at_ limit offset (suc n) = at_ offset ++ pages at_ limit (offset + limit) n

  length-insert_sorted :
      (q : A → Bool) (le : A → A → Bool) (x : A) (ys : List A)
      → length (keep q (insert_sorted le x ys)) ≡ length (keep q (x ∷ ys))
  length-insert_sorted q le x [] = refl
  length-insert_sorted q le x (y ∷ ys) = ground (arith, length-insert_sorted q le x ys)

  -- Sorting keeps how many rows satisfy a condition, whatever it is.
  pub length-sort_by :
      (q : A → Bool) (le : A → A → Bool) (xs : List A)
      → length (keep q (sort_by le xs)) ≡ length (keep q xs)
  unfolding sort_by
  length-sort_by q le [] = refl
  length-sort_by q le (x ∷ xs) =
      ground (arith, length-insert_sorted q le x (sort_by le xs), length-sort_by q le xs)

  pub take-drop : (n : ℕ) (xs : List A) → take n xs ++ drop n xs ≡ xs
  take-drop zero xs = refl
  take-drop (suc n) [] = refl
  take-drop (suc n) (x ∷ xs) = ap (◌∷◌ x) (take-drop n xs)

  pub drop_all : (k : ℕ) (xs : List A) → length xs ≤ k → drop k xs ≡ []
  drop_all k [] h = drop_nil k
  drop_all zero (x ∷ xs) h = absurd (omega arith)
  drop_all (suc k) (x ∷ xs) h = drop_all k xs (omega arith)

  -- Enough pages of a list give all of it.
  pub pages-page :
      (xs : List A) (limit n offset : ℕ)
      → length xs ≤ offset + n * limit
      → pages (λ o. page limit o xs) limit offset n ≡ drop offset xs
  pages-page xs limit zero offset h = sym (drop_all offset xs (omega (arith, h)))
  pages-page xs limit (suc n) offset h =
      ap (◌++◌ (page limit offset xs)) (
        pages-page xs limit n (offset + limit) (omega (arith, h)) ∙ sym (drop-drop limit offset xs))
      ∙ take-drop limit (drop offset xs)

  -- Each row may stand before all later ones.
  abbrev pub IsOrdered : (A → A → Bool) → List A → Type 0
  IsOrdered le [] = Unit
  IsOrdered le (x ∷ xs) = All (λ y. le x y ≡ true) xs × IsOrdered le xs

  pub All-insert_sorted :
      (P : A → Type 0) (le : A → A → Bool) (x : A) (ys : List A)
      → P x
      → All P ys
      → All P (insert_sorted le x ys)
  All-insert_sorted P le x [] p h = (p, tt)
  All-insert_sorted P le x (y ∷ ys) p h =
      if-intro (All P) (le x y) (x ∷ y ∷ ys) _ (λ _. (p, h))
        (λ _. (h.0, All-insert_sorted P le x ys p h.1))

  IsOrdered-insert_sorted :
      (le : A → A → Bool)
      → ((a b : A) → le a b ≡ false → le b a ≡ true)
      → ((a b c : A) → le a b ≡ true → le b c ≡ true → le a c ≡ true)
      → (x : A) (ys : List A) → IsOrdered le ys
      → IsOrdered le (insert_sorted le x ys)
  IsOrdered-insert_sorted le total trans x [] h = (tt, tt)
  IsOrdered-insert_sorted le total trans x (y ∷ ys) (first, rest) =
      if-intro (IsOrdered le) (le x y) (x ∷ y ∷ ys) _
        (λ before. (
          (
            before,
            All-weaken (λ z. le y z ≡ true) (λ z. le x z ≡ true) ys (λ z k. trans x y z before k)
                first,
          ),
          (first, rest),
        ))
        (λ behind. (
          All-insert_sorted (λ z. le y z ≡ true) le x ys (total x y behind) first,
          IsOrdered-insert_sorted le total trans x ys rest,
        ))

  pub IsOrdered-sort_by :
      (le : A → A → Bool)
      → ((a b : A) → le a b ≡ false → le b a ≡ true)
      → ((a b c : A) → le a b ≡ true → le b c ≡ true → le a c ≡ true)
      → (xs : List A) → IsOrdered le (sort_by le xs)
  unfolding sort_by
  IsOrdered-sort_by le total trans [] = tt
  IsOrdered-sort_by le total trans (x ∷ xs) =
      IsOrdered-insert_sorted le total trans x (sort_by le xs) (IsOrdered-sort_by le total trans xs)

  All-keep : (P : A → Type 0) (q : A → Bool) (xs : List A) → All P xs → All P (keep q xs)
  All-keep P q [] h = tt
  All-keep P q (x ∷ xs) h =
      if-intro (All P) (q x) (x ∷ keep q xs) _ (λ _. (h.0, All-keep P q xs h.1))
        (λ _. All-keep P q xs h.1)

  -- A selection is in order.
  pub IsOrdered-keep :
      (le : A → A → Bool) (q : A → Bool) (xs : List A) → IsOrdered le xs → IsOrdered le (keep q xs)
  IsOrdered-keep le q [] h = tt
  IsOrdered-keep le q (x ∷ xs) h =
      let rest = IsOrdered-keep le q xs h.1 in
      if-intro (IsOrdered le) (q x) (x ∷ keep q xs) _
        (λ _. (All-keep (λ y. le x y ≡ true) q xs h.0, rest)) (λ _. rest)

-- The pairs of rows that a condition joins.
module _ {ℓ κ} {A : Type ℓ} {B : Type κ} where
  abbrev pub join : (A → B → Bool) → List A → List B → List (A × B)
  join on [] ys = []
  join on (x ∷ xs) ys = map (λ y. (x, y)) (keep (on x) ys) ++ join on xs ys

-- `grouped = {key: start for key in keys}`, and a loop over rows that changes `grouped[row.key]`; `none` is a `KeyError`.
unfoldable pub blank {κ} : {V : Type κ} → V → List ℕ → Dict ℕ V
blank start [] = []
blank start (k ∷ ks) = insert k start (blank start ks)

lookup-blank {κ} :
    {V : Type κ} (start : V) (ks : List ℕ) (k : ℕ)
    → contains ks k ≡ true
    → lookup k (blank start ks) ≡ some start
unfolding blank
lookup-blank start [] k h = cc
lookup-blank start (j ∷ ks) k h =
    ground (arith, lookup-insert k j start (blank start ks), lookup-blank start ks k)

abbrev absorb_at {κ} : {V : Type κ} → (V → Option (Dict ℕ V)) → Option V → Option (Dict ℕ V)
absorb_at next none = none
absorb_at next (some v) = next v

module _ {ℓ κ} {R : Type ℓ} {V : Type κ} where
  unfoldable pub absorb : (R → ℕ) → (V → R → V) → List R → Dict ℕ V → Option (Dict ℕ V)
  absorb key change [] d = some d
  absorb key change (r ∷ rs) d =
      absorb_at (λ v. absorb key change rs (insert (key r) (change v r) d)) (lookup (key r) d)

  -- The changes by the rows, one after the other.
  abbrev pub fold : (V → R → V) → V → List R → V
  fold change v [] = v
  fold change v (r ∷ rs) = fold change (change v r) rs

  HasKeys : (R → ℕ) → List R → Dict ℕ V → Type κ
  HasKeys key rs d = All (λ r. (v : V) × (lookup (key r) d ≡ some v)) rs

  HasKeys-insert :
      (key : R → ℕ) (k : ℕ) (w : V) (d : Dict ℕ V) (rs : List R)
      → HasKeys key rs d
      → HasKeys key rs (insert k w d)
  unfolding HasKeys
  HasKeys-insert key k w d rs h =
      All-weaken _ _ rs
        (λ r (v, p). elim (Bool-cases (key r == k)) [
          | inl same ↦ (
            w,
            lookup-insert (key r) k w d ∙ ap (λ b. if b then some w else lookup (key r) d) same,
          )
          | inr other ↦ (
            v,
            lookup-insert (key r) k w d
                ∙ ap (λ b. if b then some w else lookup (key r) d) other
                ∙ p,
          )
        ])
        h

  absorb-fold :
      (key : R → ℕ) (change : V → R → V) (rs : List R) (d : Dict ℕ V)
      → HasKeys key rs d
      → (grouped : Dict ℕ V) × (absorb key change rs d ≡ some grouped)
        × ((k : ℕ) (v : V)
            → lookup k d ≡ some v
            → lookup k grouped ≡ some (fold change v (keep (λ r. k == key r) rs)))
  unfolding HasKeys absorb
  absorb-fold key change [] d h = (d, refl, λ k v p. p)
  absorb-fold key change (r ∷ rs) d ((v0, p0), h) =
      let d' = insert (key r) (change v0 r) d in
      let (grouped, e, same) =
        absorb-fold key change rs d' (HasKeys-insert key (key r) (change v0 r) d rs h) in
      (
        grouped,
        rw p0 e,
        λ k v p. elim (Bool-cases (k == key r)) [
          | inl own ↦
              let v_same : v0 ≡ v =
                some-injective v0 v
                  (sym p0 ∙ ap (λ j. lookup j d) (sym (==→≡ k (key r) own)) ∙ p) in
              same k (change v r) (
                lookup-insert k (key r) (change v0 r) d
                ∙ ap (λ b. if b then some (change v0 r) else lookup k d) own
                ∙ ap (λ w. some (change w r)) v_same)
              ∙ ap
                  (λ b. some (
                    fold change v
                      (if b then r ∷ keep (λ x. k == key x) rs else keep (λ x. k == key x) rs)))
                  (sym own)
          | inr other ↦
              same k v (
                lookup-insert k (key r) (change v0 r) d
                ∙ ap (λ b. if b then some (change v0 r) else lookup k d) other
                ∙ p)
              ∙ ap
                  (λ b. some (
                    fold change v
                      (if b then r ∷ keep (λ x. k == key x) rs else keep (λ x. k == key x) rs)))
                  (sym other)
        ],
      )

  -- Grouped rows: no key is missing, and each key has the changes by its own rows.
  pub absorb-blank :
      (key : R → ℕ) (change : V → R → V) (start : V) (ks : List ℕ) (rs : List R)
      → All (λ r. contains ks (key r) ≡ true) rs
      → (grouped : Dict ℕ V) × (absorb key change rs (blank start ks) ≡ some grouped)
        × ((k : ℕ)
            → contains ks k ≡ true
            → lookup k grouped ≡ some (fold change start (keep (λ r. k == key r) rs)))
  unfolding HasKeys
  absorb-blank key change start ks rs h =
      let (grouped, e, same) =
        absorb-fold key change rs (blank start ks)
          (All-weaken _ _ rs (λ r p. (start, lookup-blank start ks (key r) p)) h) in
      (grouped, e, λ k p. same k start (lookup-blank start ks k p))
