-- ===== src/Jcc/Adapters/Whole.antt =====
-- What holds of a whole structured snapshot: its references and the tiers of its traits.
use tsuz_api_jcc.Base.{
  String, true, List, [], ◌∷◌, map, length, All, All-weaken, ◌==◌, string_eq, contains, is_some,
  ◌≡◌, refl, ap, sym, ◌∙◌, arith, Bool-cases, inl, inr, ==→≡,
}
use mathlib.Core.Path.{subst, ap₂}
use tsuz_api_jcc.Base.Dict
use tsuz_api_jcc.Base.Dict.{Dict}
use tsuz_api_jcc.Base.Int.{ℤ}
use tsuz_api_jcc.Base.Result.{ok, >>=-eq-ok, ok_injective}
use tsuz_api_jcc.Jcc.Json.{Json, Object, Builtins}
use tsuz_api_jcc.Jcc.Adapters.Data.{
  TraitKind, race, job, RawSnapshot, TraitData, HeroTraitData, StructuredSnapshot, key_eq, int_eq,
  data_of,
}
use tsuz_api_jcc.Jcc.Adapters.Tiers.{same_ints}
use tsuz_api_jcc.Jcc.Adapters.Traits.{
  tiers_at, levels_from, Key, Index, ByLevel, Tiers, finalize, finalize_all, base_trait,
  base_traits, add_records, build_traits,
}
use tsuz_api_jcc.Jcc.Adapters.Entities.{
  build_heroes, build_equipment, build_augments, build_adventures, build_galaxies,
}
use tsuz_api_jcc.Jcc.Adapters.Snapshot.{build_structured_snapshot}
use tsuz_api_jcc.Jcc.Adapters.Closed.{
  IsClosedRelation, IsClosedRecipe, build_heroes-closed, build_equipment-closed,
}

abbrev pub trait_key : TraitData → Key
trait_key t = (t.kind, t.external_id)

-- The tiers of a trait have the numbers of its activation list, in order.
abbrev pub TiersMatch : TraitData → Type 0
TiersMatch t = map (λ x. x.activation_count) t.tiers ≡ t.activation_list

-- Each key of the index is its trait's.
abbrev IsKeyed : Index → Type 0
IsKeyed = All (λ e. e.0 ≡ trait_key e.1)

same_ints-eq : (a b : List ℤ) → same_ints a b ≡ true → a ≡ b
same_ints-eq [] [] h = refl
same_ints-eq [] (y ∷ b) h = cc
same_ints-eq (x ∷ a) [] h = cc
same_ints-eq (x ∷ a) (y ∷ b) h = ground (arith, same_ints-eq a b)

finalize-keeps :
    (t u : TraitData) (d : ByLevel)
    → finalize t d ≡ ok u
    → (trait_key u ≡ trait_key t) × TiersMatch u
unfolding finalize
finalize-keeps t u [] h = cc
finalize-keeps t u (e ∷ d) h =
    let counts =
      map (λ x. x.activation_count) (tiers_at (levels_from 1 (length (e ∷ d))) (e ∷ d)) in
    ground (arith, same_ints-eq counts t.activation_list)

insert-IsKeyed :
    (t : TraitData) (index : Index) → IsKeyed index → IsKeyed (Dict.insert (trait_key t) t index)
unfolding Dict.insert
insert-IsKeyed t [] h = (refl, tt)
insert-IsKeyed t ((j, w) ∷ index) (a, h) = elim (Bool-cases (trait_key t == j)) [
  | inl e ↦ rw e (sym (==→≡ (trait_key t) j e), h)
  | inr e ↦ rw e (a, insert-IsKeyed t index h)
]

finalize_all-keys :
    (index : Index) (tiers : Tiers) (ts : List TraitData)
    → finalize_all index tiers ≡ ok ts
    → IsKeyed index
    → (map trait_key ts ≡ map (λ e. e.0) index) × All TiersMatch ts
unfolding finalize_all
finalize_all-keys [] tiers ts h k = let e : ts ≡ [] = ground arith in rw e (refl, tt)
finalize_all-keys ((key, trait) ∷ index) tiers ts h (a, k) =
    let (done, fd, h₁) = >>=-eq-ok (finalize trait _) _ h in
    let (rest, fr, h₂) = >>=-eq-ok (finalize_all index tiers) _ h₁ in
    let (same, tiers_match) = finalize-keeps trait done _ fd in
    let (keys, match) = finalize_all-keys index tiers rest fr k in
    let e = ok_injective (done ∷ rest) ts h₂ in
    subst (λ l. (map trait_key l ≡ key ∷ map (λ e. e.0) index) × All TiersMatch l) e
      (ap₂ ◌∷◌ (same ∙ sym a) keys, (tiers_match, match))

known-contains :
    (k : Key) (index : Index)
    → is_some (Dict.lookup k index) ≡ true
    → contains (map (λ e. e.0) index) k ≡ true
unfolding Dict.lookup
known-contains k [] h = cc
known-contains k ((j, t) ∷ index) h = ground (arith, known-contains k index)

module _ (py : Builtins) where
  base_trait-kind :
      (kind : TraitKind) (key : String) (v : Json) (t : TraitData)
      → base_trait py kind key v ≡ ok t
      → t.kind ≡ kind
  unfolding base_trait
  base_trait-kind kind key v t h = ground arith

  base_traits-IsKeyed :
      (kind : TraitKind) (records : Object) (index index' : Index)
      → base_traits py kind records index ≡ ok index'
      → IsKeyed index
      → IsKeyed index'
  unfolding base_traits
  base_traits-IsKeyed kind [] index index' h k = let e : index' ≡ index = ground arith in rw e k
  base_traits-IsKeyed kind ((key, v) ∷ records) index index' h k =
      let (t, ft, h₁) = >>=-eq-ok (base_trait py kind key v) _ h in
      let same = base_trait-kind kind key v t ft in
      let next = insert-IsKeyed t index k in
      base_traits-IsKeyed kind records (Dict.insert (kind, t.external_id) t index) index' h₁
        (subst (λ x. IsKeyed (Dict.insert (x, t.external_id) t index)) same next)

  build_traits-keys :
      (raw : RawSnapshot) (ts : List TraitData) (index : Index)
      → build_traits py raw ≡ ok (ts, index)
      → (map trait_key ts ≡ map (λ e. e.0) index) × All TiersMatch ts
  unfolding build_traits
  build_traits-keys raw ts index h =
      let (races, _, h₁) = >>=-eq-ok (data_of raw "race") _ h in
      let (jobs, _, h₂) = >>=-eq-ok (data_of raw "job") _ h₁ in
      let (first, f₁, h₃) = >>=-eq-ok (base_traits py race races []) _ h₂ in
      let (both, f₂, h₄) = >>=-eq-ok (base_traits py job jobs first) _ h₃ in
      let (records, _, h₅) = >>=-eq-ok (data_of raw "trait") _ h₄ in
      let (tiers, _, h₆) = >>=-eq-ok (add_records py both records []) _ h₅ in
      let (done, f₃, h₇) = >>=-eq-ok (finalize_all both tiers) _ h₆ in
      let keyed =
        base_traits-IsKeyed job jobs first both f₂
          (base_traits-IsKeyed race races [] first f₁ tt) in
      let e = ok_injective (done, both) (ts, index) h₇ in
      subst (λ p. (map trait_key p.0 ≡ map (λ e. e.0) p.1) × All TiersMatch p.0) e
        (finalize_all-keys both tiers done f₃ keyed)

-- A relation is of a hero and a trait of the snapshot.
abbrev pub IsRelation : StructuredSnapshot → HeroTraitData → Type 0
IsRelation s r =
    (contains (map (λ h. h.external_id) s.heroes) r.hero_external_id ≡ true)
    × (contains (map trait_key s.traits) (r.relation_kind, r.trait_external_id) ≡ true)

abbrev pub IsWhole : StructuredSnapshot → Type 0
IsWhole s =
    All TiersMatch s.traits
    × All (IsRelation s) s.hero_traits
    × All (IsClosedRecipe (map (λ e. e.external_id) s.equipment)) s.equipment_recipes

-- In a structured snapshot that is built from a raw one, each relation is of a hero and a trait of
-- the snapshot, each recipe is of pieces of equipment of the snapshot, and the tiers of each trait
-- have the numbers of its activation list, in order.
pub build_structured_snapshot-IsWhole :
    (py : Builtins) (raw : RawSnapshot) (s : StructuredSnapshot)
    → build_structured_snapshot py raw ≡ ok s
    → IsWhole s
unfolding build_structured_snapshot
build_structured_snapshot-IsWhole py raw s h =
    let ((ts, index), f₁, h₁) = >>=-eq-ok (build_traits py raw) _ h in
    let ((hs, rs), f₂, h₂) = >>=-eq-ok (build_heroes py raw index) _ h₁ in
    let ((es, recipes), f₃, h₃) = >>=-eq-ok (build_equipment py raw) _ h₂ in
    let (augments, _, h₄) = >>=-eq-ok (build_augments py raw) _ h₃ in
    let (adventures, _, h₅) = >>=-eq-ok (build_adventures py raw) _ h₄ in
    let (galaxies, _, h₆) = >>=-eq-ok (build_galaxies py raw) _ h₅ in
    let (keys, match) = build_traits-keys py raw ts index f₁ in
    let (_, _, _, relations) = build_heroes-closed py raw index hs rs f₂ in
    let (_, _, _, closed) = build_equipment-closed py raw es recipes f₃ in
    let known =
      All-weaken (IsClosedRelation index (map (λ h. h.external_id) hs))
        (λ r.
          (contains (map (λ h. h.external_id) hs) r.hero_external_id ≡ true)
          × (contains (map trait_key ts) (r.relation_kind, r.trait_external_id) ≡ true))
        rs
        (λ r (a, b). (
          a,
          ap (λ ks. contains ks (r.relation_kind, r.trait_external_id)) keys
              ∙ known-contains (r.relation_kind, r.trait_external_id) index b,
        ))
        relations in
    subst IsWhole (ok_injective _ s h₆) (match, known, closed)
