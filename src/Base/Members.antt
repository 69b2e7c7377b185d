-- ===== src/Base/Members.antt =====
-- Membership in a list, as a proposition by recursion, and what maps, filters, joins and sorts do to it.
use mathlib.Core.Path.{◌≡◌, refl, sym, ap, subst}
use mathlib.Core.Bool.{Bool, true, false}
use mathlib.Core.List.{List, [], ◌∷◌, ◌++◌, map}
use mathlib.Core.Logic.{◌⊎◌, inl, inr}
use native.Mathlib.Omega.{arith}
use tsuz_api_jcc.Base.Equality.{Bool-cases, if◌then◌else◌}
use tsuz_api_jcc.Base.Lists.{keep}
use tsuz_api_jcc.Base.Query.{insert_sorted, sort_by, join}

module _ {A : Type 0} where
  abbrev pub Has : List A → A → Type 0
  Has [] a = ⊥
  Has (x ∷ xs) a = (x ≡ a) ⊎ Has xs a

  pub Has-append_left : (xs ys : List A) (a : A) → Has xs a → Has (xs ++ ys) a
  Has-append_left [] ys a h = absurd h
  Has-append_left (x ∷ xs) ys a (inl e) = inl e
  Has-append_left (x ∷ xs) ys a (inr h) = inr (Has-append_left xs ys a h)

  pub Has-append_right : (xs ys : List A) (a : A) → Has ys a → Has (xs ++ ys) a
  Has-append_right [] ys a h = h
  Has-append_right (x ∷ xs) ys a h = inr (Has-append_right xs ys a h)

  pub append-Has : (xs ys : List A) (a : A) → Has (xs ++ ys) a → Has xs a ⊎ Has ys a
  append-Has [] ys a h = inr h
  append-Has (x ∷ xs) ys a (inl e) = inl (inl e)
  append-Has (x ∷ xs) ys a (inr h) = elim (append-Has xs ys a h) [
    | inl k ↦ inl (inr k)
    | inr k ↦ inr k
  ]

  pub Has-keep : (p : A → Bool) (xs : List A) (a : A) → Has xs a → p a ≡ true → Has (keep p xs) a
  Has-keep p [] a h t = absurd h
  Has-keep p (x ∷ xs) a h t = elim (Bool-cases (p x)) [
    | inl k ↦ rw k (elim h [ inl e ↦ inl e | inr l ↦ inr (Has-keep p xs a l t) ])
    | inr k ↦
        rw k
          (elim h [ inl e ↦ absurd (ground (arith, k, t, ap p e)) | inr l ↦ Has-keep p xs a l t ])
  ]

  -- The head of a filtered list, or its tail.
  kept-Has :
      (p : A → Bool) (x : A) (xs : List A) (a : A) (b : Bool)
      → p x ≡ b
      → Has (if b then x ∷ keep p xs else keep p xs) a
      → ((x ≡ a) × (p x ≡ true)) ⊎ Has (keep p xs) a
  kept-Has p x xs a true k (inl e) = inl (e, k)
  kept-Has p x xs a true k (inr h) = inr h
  kept-Has p x xs a false k h = inr h

  pub keep-Has : (p : A → Bool) (xs : List A) (a : A) → Has (keep p xs) a → Has xs a × (p a ≡ true)
  keep-Has p [] a h = absurd h
  keep-Has p (x ∷ xs) a h = elim (kept-Has p x xs a (p x) refl h) [
    | inl (e, k) ↦ (inl e, subst (λ y. p y ≡ true) e k)
    | inr l ↦ let (m, k) = keep-Has p xs a l in (inr m, k)
  ]

  Has-insert_sorted :
      (le : A → A → Bool) (y : A) (xs : List A) (a : A)
      → Has (y ∷ xs) a
      → Has (insert_sorted le y xs) a
  Has-insert_sorted le y [] a h = h
  Has-insert_sorted le y (x ∷ xs) a h = elim (Bool-cases (le y x)) [
    | inl k ↦ rw k h
    | inr k ↦ rw k (elim h [
      | inl e ↦ inr (Has-insert_sorted le y xs a (inl e))
      | inr (inl e) ↦ inl e
      | inr (inr l) ↦ inr (Has-insert_sorted le y xs a (inr l))
    ])
  ]

  pub Has-sort_by : (le : A → A → Bool) (xs : List A) (a : A) → Has xs a → Has (sort_by le xs) a
  unfolding sort_by
  Has-sort_by le [] a h = h
  Has-sort_by le (x ∷ xs) a (inl e) = Has-insert_sorted le x (sort_by le xs) a (inl e)
  Has-sort_by le (x ∷ xs) a (inr h) =
      Has-insert_sorted le x (sort_by le xs) a (inr (Has-sort_by le xs a h))

  insert_sorted-Has :
      (le : A → A → Bool) (y : A) (xs : List A) (a : A)
      → Has (insert_sorted le y xs) a
      → Has (y ∷ xs) a
  insert_sorted-Has le y [] a h = h
  insert_sorted-Has le y (x ∷ xs) a h = elim (Bool-cases (le y x)) [
    | inl k ↦ (rw k at h)
    | inr k ↦ elim (rw k at h) [
      | inl e ↦ inr (inl e)
      | inr l ↦ elim (insert_sorted-Has le y xs a l) [ inl e ↦ inl e | inr m ↦ inr (inr m) ]
    ]
  ]

  pub sort_by-Has : (le : A → A → Bool) (xs : List A) (a : A) → Has (sort_by le xs) a → Has xs a
  unfolding sort_by
  sort_by-Has le [] a h = h
  sort_by-Has le (x ∷ xs) a h = elim (insert_sorted-Has le x (sort_by le xs) a h) [
    | inl e ↦ inl e
    | inr l ↦ inr (sort_by-Has le xs a l)
  ]

module _ {A B : Type 0} where
  pub Has-map : (f : A → B) (xs : List A) (a : A) → Has xs a → Has (map f xs) (f a)
  Has-map f [] a h = absurd h
  Has-map f (x ∷ xs) a (inl e) = inl (ap f e)
  Has-map f (x ∷ xs) a (inr h) = inr (Has-map f xs a h)

  pub map-Has :
      (f : A → B) (xs : List A) (b : B) → Has (map f xs) b → (a : A) × Has xs a × (f a ≡ b)
  map-Has f [] b h = absurd h
  map-Has f (x ∷ xs) b (inl e) = (x, inl refl, e)
  map-Has f (x ∷ xs) b (inr h) = let (a, k, e) = map-Has f xs b h in (a, inr k, e)

module _ {A B : Type 0} where
  pub Has-join :
      (on : A → B → Bool) (xs : List A) (ys : List B) (x : A) (y : B)
      → Has xs x
      → Has ys y
      → on x y ≡ true
      → Has (join on xs ys) (x, y)
  Has-join on [] ys x y h k t = absurd h
  Has-join on (z ∷ xs) ys x y (inl e) k t =
      Has-append_left (map (λ w. (z, w)) (keep (on z) ys)) (join on xs ys) (x, y)
        (subst (λ (v : A). Has {A = A × B} (map (λ w. (z, w)) (keep (on z) ys)) (v, y)) e
          (Has-map (λ w. (z, w)) (keep (on z) ys) y
            (Has-keep (on z) ys y k (subst (λ v. on v y ≡ true) (sym e) t))))
  Has-join on (z ∷ xs) ys x y (inr h) k t =
      Has-append_right (map (λ w. (z, w)) (keep (on z) ys)) (join on xs ys) (x, y)
        (Has-join on xs ys x y h k t)

  pub join-Has :
      (on : A → B → Bool) (xs : List A) (ys : List B) (r : A × B)
      → Has (join on xs ys) r
      → Has xs r.0 × Has ys r.1 × (on r.0 r.1 ≡ true)
  join-Has on [] ys r h = absurd h
  join-Has on (z ∷ xs) ys r h =
      elim (append-Has (map (λ w. (z, w)) (keep (on z) ys)) (join on xs ys) r h) [
        | inl k ↦
            let (w, l, e) = map-Has (λ w. (z, w)) (keep (on z) ys) r k in
            let (m, t) = keep-Has (on z) ys w l in
            subst (λ (q : A × B). Has (z ∷ xs) q.0 × Has ys q.1 × (on q.0 q.1 ≡ true)) e
              (inl refl, m, t)
        | inr k ↦ let (a, b, t) = join-Has on xs ys r k in (inr a, b, t)
      ]
