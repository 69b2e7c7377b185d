-- ===== src/Base/Orders.antt =====
-- An order that tells the rows of a list apart determines the list.
use mathlib.Core.Path.{◌≡◌, refl, sym, ap, subst}
use mathlib.Core.Bool.{Bool, true, false}
use mathlib.Core.List.{List, [], ◌∷◌}
use mathlib.Core.Logic.{inl, inr}
use native.Mathlib.Omega.{arith}
use tsuz_api_jcc.Base.Equality.{if-intro}
use tsuz_api_jcc.Base.Lists.{All}
use tsuz_api_jcc.Base.Query.{IsOrdered, All-insert_sorted, insert_sorted, sort_by}
use tsuz_api_jcc.Base.Members.{Has, sort_by-Has}

module _ {A : Type 0} where
  pub All-Has : (P : A → Type 0) (xs : List A) (a : A) → All P xs → Has xs a → P a
  All-Has P [] a h k = absurd k
  All-Has P (x ∷ xs) a (p, h) (inl e) = subst P e p
  All-Has P (x ∷ xs) a (p, h) (inr k) = All-Has P xs a h k

  pub Has-All : (P : A → Type 0) (xs : List A) → ((a : A) → Has xs a → P a) → All P xs
  Has-All P [] h = tt
  Has-All P (x ∷ xs) h = (h x (inl refl), Has-All P xs (λ a k. h a (inr k)))

  IsOrdered-insert_apart :
      (le differ : A → A → Bool)
      → ((a b : A) → differ a b ≡ true → differ b a ≡ true)
      → (x : A) (ys : List A) → All (λ y. differ x y ≡ true) ys
      → IsOrdered differ ys
      → IsOrdered differ (insert_sorted le x ys)
  IsOrdered-insert_apart le differ symmetric x [] h k = (tt, tt)
  IsOrdered-insert_apart le differ symmetric x (y ∷ ys) (d, h) (first, rest) =
      if-intro (IsOrdered differ) (le x y) (x ∷ y ∷ ys) _ (λ _. ((d, h), (first, rest)))
        (λ _. (
          All-insert_sorted (λ z. differ y z ≡ true) le x ys (symmetric x y d) first,
          IsOrdered-insert_apart le differ symmetric x ys h rest,
        ))

  -- Sorting keeps rows apart.
  pub sort_by-apart :
      (le differ : A → A → Bool)
      → ((a b : A) → differ a b ≡ true → differ b a ≡ true)
      → (xs : List A) → IsOrdered differ xs
      → IsOrdered differ (sort_by le xs)
  unfolding sort_by
  sort_by-apart le differ symmetric [] h = tt
  sort_by-apart le differ symmetric (x ∷ xs) (d, h) =
      IsOrdered-insert_apart le differ symmetric x (sort_by le xs)
        (Has-All (λ y. differ x y ≡ true) (sort_by le xs)
          (λ a k. All-Has (λ y. differ x y ≡ true) xs a d (sort_by-Has le xs a k)))
        (sort_by-apart le differ symmetric xs h)

  module _ (le differ : A → A → Bool) (P : A → Type 0)
      (clash : (a b : A) → P a → P b → le a b ≡ true → le b a ≡ true → differ a b ≡ false)
      (itself : (a : A) → differ a a ≡ false) where
    same_head :
        (x y : A) (xs ys : List A)
        → All P (x ∷ xs)
        → All P (y ∷ ys)
        → IsOrdered le (x ∷ xs)
        → IsOrdered le (y ∷ ys)
        → IsOrdered differ (y ∷ ys)
        → Has (y ∷ ys) x
        → Has (x ∷ xs) y
        → x ≡ y
    same_head x y xs ys p q o n d (inl e) k = sym e
    same_head x y xs ys p q o n d (inr h) (inl e) = e
    same_head x y xs ys p q o n d (inr h) (inr k) =
        let before = All-Has (λ z. le y z ≡ true) ys x n.0 h in
        let behind = All-Has (λ z. le x z ≡ true) xs y o.0 k in
        let apart = All-Has (λ z. differ y z ≡ true) ys x d.0 h in
        absurd (ground (arith, apart, clash y x q.0 p.0 before behind))

    -- A member of a tail is in the other tail.
    tail-Has :
        (x y : A) (xs ys : List A) (a : A)
        → x ≡ y
        → IsOrdered differ (x ∷ xs)
        → Has xs a
        → Has (y ∷ ys) a
        → Has ys a
    tail-Has x y xs ys a e d h (inr k) = k
    tail-Has x y xs ys a e d h (inl k) =
        let apart = All-Has (λ z. differ x z ≡ true) xs a d.0 h in
        absurd (
          ground (
            arith,
            itself a,
            subst (λ z. differ z a ≡ true) k (subst (λ z. differ z a ≡ true) e apart),
          ))

    -- Two lists with the same members, both in order and without clashes, are the same.
    pub ordered_unique :
        (xs ys : List A)
        → All P xs
        → All P ys
        → IsOrdered le xs
        → IsOrdered le ys
        → IsOrdered differ xs
        → IsOrdered differ ys
        → ((a : A) → Has xs a → Has ys a)
        → ((a : A) → Has ys a → Has xs a)
        → xs ≡ ys
    ordered_unique [] [] p q o n d c f g = refl
    ordered_unique [] (y ∷ ys) p q o n d c f g = absurd (g y (inl refl))
    ordered_unique (x ∷ xs) [] p q o n d c f g = absurd (f x (inl refl))
    ordered_unique (x ∷ xs) (y ∷ ys) p q o n d c f g =
        let e = same_head x y xs ys p q o n c (f x (inl refl)) (g y (inl refl)) in
        let rest =
          ordered_unique xs ys p.1 q.1 o.1 n.1 d.1 c.1
            (λ a h. tail-Has x y xs ys a e d h (f a (inr h)))
            (λ a h. tail-Has y x ys xs a (sym e) c h (g a (inr h))) in
        subst (λ z. x ∷ xs ≡ z ∷ ys) e (ap (◌∷◌ x) rest)
