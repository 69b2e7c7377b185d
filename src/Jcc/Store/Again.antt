-- ===== src/Jcc/Store/Again.antt =====
-- Importing a snapshot a second time.
use tsuz_api_jcc.Base.{
  ℕ, suc, String, Bool, true, false, some, string_eq, nat_eq, option_eq, if◌then◌else◌, ◌≡◌, refl,
  ap, sym, ◌∙◌, arith, Bool-cases, Option-cases, inl, inr, ==_refl,
}
use mathlib.Core.Path.{subst}
use tsuz_api_jcc.Base.Result.{ok}
use tsuz_api_jcc.Jcc.Json.{Builtins}
use tsuz_api_jcc.Jcc.Adapters.Data.{SnapshotData, StructuredSnapshot}
use tsuz_api_jcc.Jcc.Store.{
  Store, SnapshotRow, snapshot_is_complete, count, count_tiers, add_snapshot, existing_snapshot,
  ImportResult, skipped, import_snapshot, republish, publish, points_to, lock_current, result_of,
}
use tsuz_api_jcc.Jcc.Store.Current.{
  current_of, points_to-eq, import_snapshot-steps, republish-current, add_entities-snapshots,
  import_snapshot-current,
}
use tsuz_api_jcc.Jcc.Store.Filled.{Below, IsWell, add_entities_complete}

complete-publish :
    (i j now : ℕ) (mode : String) (incoming : StructuredSnapshot) (s : Store)
    → snapshot_is_complete i incoming (publish mode j now s) ≡ snapshot_is_complete i incoming s
unfolding snapshot_is_complete publish count count_tiers
complete-publish i j now mode incoming s = refl

IsWell-publish : (i now : ℕ) (mode : String) (s : Store) → IsWell s → IsWell (publish mode i now s)
unfolding publish
IsWell-publish i now mode s w = record {
  below = record {
    heroes = w.below.heroes;
    traits = w.below.traits;
    tiers = w.below.tiers;
    hero_traits = w.below.hero_traits;
    equipment = w.below.equipment;
    recipes = w.below.recipes;
    augments = w.below.augments;
    adventures = w.below.adventures;
    galaxies = w.below.galaxies;
  };
}

add_snapshot-Below :
    (py : Builtins) (now i : ℕ) (m : SnapshotData) (s t : Store)
    → add_snapshot py now m s ≡ ok (i, t)
    → IsWell s
    → Below i t × (t.next_snapshot ≡ suc i)
unfolding add_snapshot
add_snapshot-Below py now i m s t h w =
    let b = w.below in
    let k : i ≡ s.next_snapshot = ground arith in
    (
      record {
        heroes = ground arith;
        traits = ground arith;
        tiers = ground arith;
        hero_traits = ground arith;
        equipment = ground arith;
        recipes = ground arith;
        augments = ground arith;
        adventures = ground arith;
        galaxies = ground arith;
      },
      ground arith,
    )

-- A republication succeeds only on a complete snapshot, which it leaves complete.
republish_complete :
    (now : ℕ) (incoming : StructuredSnapshot) (row : SnapshotRow) (s t : Store) (r : ImportResult)
    → republish now incoming row s ≡ ok (r, t)
    → IsWell s
    → (snapshot_is_complete row.id incoming t ≡ true) × IsWell t
unfolding republish
republish_complete now incoming row s t r h w =
    let mode = incoming.metadata.mode in
    let c : snapshot_is_complete row.id incoming s ≡ true = ground arith in
    elim (Bool-cases (points_to row.id (lock_current mode s))) [
      | inl e ↦ let u : t ≡ s = ground arith in rw u (c, w)
      | inr e ↦
          let u : t ≡ publish mode row.id now s = ground arith in
          rw u (
            complete-publish row.id row.id now mode incoming s ∙ c,
            IsWell-publish row.id now mode s w,
          )
    ]

republish-skips :
    (now : ℕ) (incoming : StructuredSnapshot) (row : SnapshotRow) (t : Store)
    → snapshot_is_complete row.id incoming t ≡ true
    → points_to row.id (lock_current incoming.metadata.mode t) ≡ true
    → republish now incoming row t
      ≡ ok (result_of skipped row.id row.value.revision row.value.content_hash incoming.metadata, t)
unfolding republish
republish-skips now incoming row t c p = rw (c, p) refl

pub import_snapshot_complete :
    (py : Builtins) (now now' : ℕ) (busy : Bool) (incoming : StructuredSnapshot) (s t : Store)
    (r : ImportResult)
    → import_snapshot py now now' busy incoming s ≡ ok (r, t)
    → IsWell s
    → (snapshot_is_complete r.snapshot_id incoming t ≡ true) × IsWell t
unfolding import_snapshot
import_snapshot_complete py now now' true incoming s t r h w = cc
import_snapshot_complete py now now' false incoming s t r h w =
    elim (Option-cases (existing_snapshot incoming.metadata s)) [
      | inr (row, e) ↦
          let h' : republish now' incoming row s ≡ ok (r, t) = ground arith in
          let (k, _, _) = republish-current now' incoming row s t r incoming.metadata.mode h' in
          let (c, w') = republish_complete now' incoming row s t r h' w in
          (subst (λ i. snapshot_is_complete i incoming t ≡ true) k c, w')
      | inl e ↦
          let (added, filled, fa, ff, u) = import_snapshot-steps py now now' incoming s t r e h in
          let i = r.snapshot_id in
          let (b, next) = add_snapshot-Below py now i incoming.metadata s added fa w in
          let (c, b') = add_entities_complete i incoming added filled ff b in
          let (_, _, n) = add_entities-snapshots i incoming added filled ff in
          let w' : IsWell filled = record {
            below = subst (λ k. Below k filled) (sym (n ∙ next)) b';
          } in
          rw u (
            complete-publish i i now' incoming.metadata.mode incoming filled ∙ c,
            IsWell-publish i now' incoming.metadata.mode filled w',
          )
    ]

import_known :
    (py : Builtins) (now now' : ℕ) (incoming : StructuredSnapshot) (t : Store) (row : SnapshotRow)
    → existing_snapshot incoming.metadata t ≡ some row
    → snapshot_is_complete row.id incoming t ≡ true
    → current_of incoming.metadata.mode t ≡ some row.id
    → import_snapshot py now now' false incoming t
      ≡ ok (result_of skipped row.id row.value.revision row.value.content_hash incoming.metadata, t)
unfolding import_snapshot
import_known py now now' incoming t row found complete pointer =
    let points =
      points_to-eq row.id incoming.metadata.mode t ∙ rw pointer (==_refl (some row.id)) in
    rw (found, import_snapshot) (republish-skips now' incoming row t complete points)

-- An import that succeeds on a store whose rows belong to its snapshots keeps that invariant, and
-- importing the same snapshot again is skipped: it succeeds with the same snapshot and leaves the
-- store as it is.
pub import_snapshot-again :
    (py : Builtins) (now now' later later' : ℕ) (busy : Bool) (incoming : StructuredSnapshot)
    (s t : Store) (r : ImportResult)
    → IsWell s
    → import_snapshot py now now' busy incoming s ≡ ok (r, t)
    → IsWell t
      × ((r' : ImportResult) × (import_snapshot py later later' false incoming t ≡ ok (r', t))
          × (r'.action ≡ skipped)
          × (r'.snapshot_id ≡ r.snapshot_id))
import_snapshot-again py now now' later later' busy incoming s t r w h =
    let mode = incoming.metadata.mode in
    let (complete, w') = import_snapshot_complete py now now' busy incoming s t r h w in
    let (row, found, k, current) = import_snapshot-current py now now' busy incoming s t r mode h in
    let itself = ap (λ b. if b then some r.snapshot_id else current_of mode s) (==_refl mode) in
    let complete' = subst (λ i. snapshot_is_complete i incoming t ≡ true) (sym k) complete in
    let again =
      import_known py later later' incoming t row found complete'
        (current ∙ itself ∙ ap some (sym k)) in
    (
      w',
      (
        result_of skipped row.id row.value.revision row.value.content_hash incoming.metadata,
        again,
        refl,
        k,
      ),
    )
