-- ===== src/Jcc/Queries/Counts.antt =====
-- app/jcc_data/repository.py: the counts that are reported after an import.
use tsuz_api_jcc.Base.{
  ℕ, String, Bool, true, some, List, [], ◌∷◌, find, find-true, length, ◌==◌, string_eq, nat_eq, ◌≡◌,
  refl, sym, ap, ◌∙◌, arith, ==_refl, ==→≡, if◌then◌else◌, option_eq, Option-cases, Bool-cases, inl,
  inr,
}
use mathlib.Core.Option.{some-injective}
use tsuz_api_jcc.Base.Result.{ok}
use tsuz_api_jcc.Jcc.Json.{Builtins}
use tsuz_api_jcc.Jcc.Adapters.Data.{StructuredSnapshot}
use tsuz_api_jcc.Jcc.Store.{
  SnapshotRow, CurrentSnapshot, ImportResult, Store, import_snapshot, snapshot_is_complete,
  sum_tiers, existing_snapshot, lock_current,
}
use tsuz_api_jcc.Jcc.Store.Current.{current_of, import_snapshot-current}
use tsuz_api_jcc.Jcc.Store.Filled.{IsWell}
use tsuz_api_jcc.Jcc.Store.Again.{import_snapshot_complete}
use tsuz_api_jcc.Jcc.Queries.{get_current_resource_counts, current_snapshot}

-- How many entities of each kind a structured snapshot has.
abbrev pub resource_counts : StructuredSnapshot → List (String × ℕ)
resource_counts s =
    ("heroes", length s.heroes)
    ∷ ("traits", length s.traits)
    ∷ ("trait_tiers", sum_tiers s.traits)
    ∷ ("hero_traits", length s.hero_traits)
    ∷ ("equipment", length s.equipment)
    ∷ ("equipment_recipes", length s.equipment_recipes)
    ∷ ("augments", length s.augments)
    ∷ ("adventures", length s.adventures)
    ∷ ("galaxies", length s.galaxies)
    ∷ []

find-other {ℓ} :
    {A : Type ℓ} (p q : A → Bool) (xs : List A) (a : A)
    → find q xs ≡ some a
    → p a ≡ true
    → (b : A) × (find p xs ≡ some b)
find-other p q [] a h t = cc
find-other p q (x ∷ xs) a h t = elim (Bool-cases (p x)) [
  | inl here ↦ rw here (x, refl)
  | inr not_here ↦ elim (Bool-cases (q x)) [
    | inl found ↦
        let same : x ≡ a =
          some-injective x a (ap (λ b. if b then some x else find q xs) (sym found) ∙ h) in
        absurd (ground (arith, not_here, t, ap p same))
    | inr not_found ↦
        let (b, e) =
          find-other p q xs a (ap (λ b. if b then some x else find q xs) (sym not_found) ∙ h) t in
        (b, rw not_here e)
  ]
]

pointed_snapshot :
    (mode : String) (s : Store) (pointer : CurrentSnapshot) (found : SnapshotRow)
    → find (λ (c : CurrentSnapshot). c.mode == mode) s.current ≡ some pointer
    → find (λ (r : SnapshotRow). r.id == pointer.snapshot_id) s.snapshots ≡ some found
    → current_snapshot mode s ≡ some found
unfolding current_snapshot
pointed_snapshot mode s pointer found p f = rw (p, current_snapshot) f

current_snapshot-of :
    (mode : String) (i : ℕ) (s : Store) (row : SnapshotRow) (incoming : StructuredSnapshot)
    → current_of mode s ≡ some i
    → existing_snapshot incoming.metadata s ≡ some row
    → row.id ≡ i
    → (found : SnapshotRow) × (current_snapshot mode s ≡ some found) × (found.id ≡ i)
unfolding current_of lock_current existing_snapshot
current_snapshot-of mode i s row incoming c e k =
    elim (Option-cases (find (λ (c : CurrentSnapshot). c.mode == mode) s.current)) [
      | inl none_ ↦ absurd (ground (arith, c, none_))
      | inr (pointer, p) ↦
          let target : pointer.snapshot_id ≡ i = ground (arith, c, p) in
          let (found, f) =
            find-other (λ (r : SnapshotRow). r.id == pointer.snapshot_id) _ s.snapshots row e
              (ground (arith, k, target, ==_refl i)) in
          (
            found,
            pointed_snapshot mode s pointer found p f,
            ==→≡ found.id pointer.snapshot_id
                  (find-true (λ (r : SnapshotRow). r.id == pointer.snapshot_id) s.snapshots found f)
                ∙ target,
          )
    ]

counts_complete :
    (i : ℕ) (incoming : StructuredSnapshot) (s : Store) (mode : String) (row : SnapshotRow)
    → snapshot_is_complete i incoming s ≡ true
    → current_snapshot mode s ≡ some row
    → row.id ≡ i
    → get_current_resource_counts mode s ≡ ok (row, resource_counts incoming)
unfolding snapshot_is_complete get_current_resource_counts
counts_complete i incoming s mode row c now k = rw (now, k) (ground arith)

-- An import that succeeds on a store whose rows belong to its snapshots makes the counts of the mode those of the
-- incoming snapshot, of the snapshot that the result names.
pub import_snapshot-counts :
    (py : Builtins) (now now' : ℕ) (busy : Bool) (incoming : StructuredSnapshot) (s t : Store)
    (r : ImportResult)
    → IsWell s
    → import_snapshot py now now' busy incoming s ≡ ok (r, t)
    → (row : SnapshotRow) × (row.id ≡ r.snapshot_id)
      × (get_current_resource_counts incoming.metadata.mode t ≡ ok (row, resource_counts incoming))
import_snapshot-counts py now now' busy incoming s t r w h =
    let mode = incoming.metadata.mode in
    let (complete, _) = import_snapshot_complete py now now' busy incoming s t r h w in
    let (old, e, k, c) = import_snapshot-current py now now' busy incoming s t r mode h in
    let pointer =
      c ∙ ap (λ b. if b then some r.snapshot_id else current_of mode s) (==_refl mode) in
    let (row, found, same) = current_snapshot-of mode r.snapshot_id t old incoming pointer e k in
    (row, same, counts_complete r.snapshot_id incoming t mode row complete found same)
