-- ===== src/Jcc/Store/Current.antt =====
-- What an import publishes, and what importing the same snapshot again does.
use tsuz_api_jcc.Base.{
  find-true, find-append_none, ℕ, suc, String, Bool, true, false, ◌&&◌, Option, none, some, List,
  [], ◌∷◌, ◌++◌, find, ◌==◌, string_eq, nat_eq, option_eq, if◌then◌else◌, ◌≡◌, refl, ap, sym, ◌∙◌,
  arith, Bool-cases, Option-cases, inl, inr, ==→≡,
}
use mathlib.Core.Path.{subst}
use tsuz_api_jcc.Base.Result.{ok, >>=-eq-ok}
use tsuz_api_jcc.Jcc.Json.{Builtins}
use tsuz_api_jcc.Jcc.Adapters.Data.{SnapshotData, StructuredSnapshot}
use tsuz_api_jcc.Jcc.Store.{
  Store, SnapshotRow, CurrentSnapshot, ImportResult, lock_current, set_pointer, publish,
  same_version, existing_snapshot, add_snapshot, add_entities, points_to, start_text, republish,
  import_snapshot, get_snapshot, switch_current_snapshot,
}

-- The snapshot that the pointer of a mode names.
abbrev pub pointed : Option CurrentSnapshot → Option ℕ
pointed none = none
pointed (some c) = some c.snapshot_id

unfoldable pub current_of : String → Store → Option ℕ
unfolding lock_current
current_of mode s = pointed (lock_current mode s)

pointed-set_pointer :
    (m mode : String) (i now : ℕ) (cs : List CurrentSnapshot)
    → pointed (find (λ c. c.mode == m) (set_pointer mode i now cs))
      ≡ (if m == mode then some i else pointed (find (λ c. c.mode == m) cs))
pointed-set_pointer m mode i now [] = ground arith
pointed-set_pointer m mode i now (c ∷ cs) = ground (arith, pointed-set_pointer m mode i now cs)

current_of-publish :
    (m mode : String) (i now : ℕ) (s : Store)
    → current_of m (publish mode i now s) ≡ (if m == mode then some i else current_of m s)
unfolding current_of publish
current_of-publish m mode i now s = pointed-set_pointer m mode i now s.current

get_snapshot-publish :
    (mode : String) (i : ℕ) (m : String) (j now : ℕ) (s : Store)
    → get_snapshot mode i (publish m j now s) ≡ get_snapshot mode i s
unfolding get_snapshot publish
get_snapshot-publish mode i m j now s = refl

get_snapshot-id :
    (mode : String) (i : ℕ) (s : Store) (r : SnapshotRow)
    → get_snapshot mode i s ≡ some r
    → r.id ≡ i
unfolding get_snapshot
get_snapshot-id mode i s r h =
    let t = find-true (λ x. x.id == i && x.value.mode == mode) s.snapshots r h in ground arith

-- After a switch the mode's current snapshot is the given one, which is a stored snapshot of that
-- mode, and the current snapshots of the other modes are as they were.
pub switch_current_snapshot-current :
    (now : ℕ) (busy : Bool) (mode m : String) (i : ℕ) (s t : Store)
    → switch_current_snapshot now busy mode i s ≡ ok t
    → (r : SnapshotRow) × (get_snapshot mode i t ≡ some r)
      × (current_of m t ≡ (if m == mode then some i else current_of m s))
unfolding switch_current_snapshot
switch_current_snapshot-current now true mode m i s t h = cc
switch_current_snapshot-current now false mode m i s t h =
    elim (Option-cases (get_snapshot mode i s)) [
      | inl e ↦ absurd (ground arith)
      | inr (r, e) ↦
          let k = get_snapshot-id mode i s r e in
          let w : t ≡ publish mode r.id now s = ground arith in
          (
            r,
            rw w (get_snapshot-publish mode i mode r.id now s ∙ e),
            rw (w, k) (current_of-publish m mode i now s),
          )
    ]

-- A stored snapshot of the incoming one's mode, season, version and content.
existing-append :
    (m : SnapshotData) (s : Store) (new : SnapshotRow) (n : ℕ)
    → existing_snapshot m s ≡ none
    → new.value ≡ m
    → existing_snapshot m (record s { next_snapshot = n; snapshots = s.snapshots ++ new ∷ [] })
      ≡ some new
unfolding existing_snapshot
existing-append m s new n h e =
    find-append_none (λ r. same_version r.value m && r.value.content_hash == m.content_hash)
      s.snapshots new h (ground arith)

pub add_entities-snapshots :
    (i : ℕ) (incoming : StructuredSnapshot) (s t : Store)
    → add_entities i incoming s ≡ ok t
    → (t.snapshots ≡ s.snapshots) × (t.current ≡ s.current) × (t.next_snapshot ≡ s.next_snapshot)
unfolding add_entities
add_entities-snapshots i incoming s t h = ground arith

pub points_to-eq :
    (i : ℕ) (mode : String) (s : Store)
    → points_to i (lock_current mode s) ≡ (current_of mode s == some i)
unfolding current_of option_eq
points_to-eq i mode s = elim (Option-cases (lock_current mode s)) [
  | inl e ↦ rw e refl
  | inr (c, e) ↦ rw e (ground arith)
]

existing-publish :
    (m : SnapshotData) (mode : String) (i now : ℕ) (s : Store)
    → existing_snapshot m (publish mode i now s) ≡ existing_snapshot m s
unfolding existing_snapshot publish
existing-publish m mode i now s = refl

same_current :
    (m mode : String) (s : Store) (i : ℕ)
    → current_of mode s ≡ some i
    → current_of m s ≡ (if m == mode then some i else current_of m s)
same_current m mode s i h = elim (Bool-cases (m == mode)) [
  | inl e ↦ rw e (ap (λ x. current_of x s) (==→≡ m mode e) ∙ h)
  | inr e ↦ rw e refl
]

existing-same :
    (m : SnapshotData) (s t : Store)
    → t.snapshots ≡ s.snapshots
    → existing_snapshot m t ≡ existing_snapshot m s
unfolding existing_snapshot
existing-same m s t h = rw h refl

current_of-same :
    (m : String) (s t : Store) → t.current ≡ s.current → current_of m t ≡ current_of m s
unfolding current_of lock_current
current_of-same m s t h = rw h refl

pub republish-current :
    (now : ℕ) (incoming : StructuredSnapshot) (row : SnapshotRow) (s t : Store) (r : ImportResult)
    (m : String)
    → republish now incoming row s ≡ ok (r, t)
    → (row.id ≡ r.snapshot_id)
      × (existing_snapshot incoming.metadata t ≡ existing_snapshot incoming.metadata s)
      × (current_of m t
          ≡ (if m == incoming.metadata.mode then some r.snapshot_id else current_of m s))
unfolding republish
republish-current now incoming row s t r m h =
    let mode = incoming.metadata.mode in
    elim (Bool-cases (points_to row.id (lock_current mode s))) [
      | inl e ↦
          let w : t ≡ s = ground arith in
          let k : row.id ≡ r.snapshot_id = ground arith in
          let c : current_of mode s ≡ some row.id =
            ==→≡ (current_of mode s) (some row.id) (sym (points_to-eq row.id mode s) ∙ e) in
          (k, rw w refl, rw w (same_current m mode s r.snapshot_id (c ∙ ap some k)))
      | inr e ↦
          let w : t ≡ publish mode row.id now s = ground arith in
          let k : row.id ≡ r.snapshot_id = ground arith in
          (
            k,
            rw w (existing-publish incoming.metadata mode row.id now s),
            rw (w, ← k) (current_of-publish m mode row.id now s),
          )
    ]

add_snapshot-new :
    (py : Builtins) (now i : ℕ) (m : SnapshotData) (s t : Store)
    → existing_snapshot m s ≡ none
    → add_snapshot py now m s ≡ ok (i, t)
    → (row : SnapshotRow) × (existing_snapshot m t ≡ some row)
      × (row.id ≡ i)
      × (t.current ≡ s.current)
unfolding add_snapshot
add_snapshot-new py now i m s t e h =
    let row : SnapshotRow = record {
      id = s.next_snapshot;
      value = m;
      version_start_time = start_text py m.version_start_time;
      imported_at = now;
    } in
    let w : t
        ≡ record s { next_snapshot = suc s.next_snapshot; snapshots = s.snapshots ++ row ∷ [] } =
      ground arith in
    (row, rw w (existing-append m s row (suc s.next_snapshot) e refl), ground arith, rw w refl)

pub import_snapshot-steps :
    (py : Builtins) (now now' : ℕ) (incoming : StructuredSnapshot) (s t : Store) (r : ImportResult)
    → existing_snapshot incoming.metadata s ≡ none
    → import_snapshot py now now' false incoming s ≡ ok (r, t)
    → (added filled : Store) × (add_snapshot py now incoming.metadata s ≡ ok (r.snapshot_id, added))
      × (add_entities r.snapshot_id incoming added ≡ ok filled)
      × (t ≡ publish incoming.metadata.mode r.snapshot_id now' filled)
unfolding import_snapshot
import_snapshot-steps py now now' incoming s t r e h =
    let h' = rw (e, import_snapshot) at h in
    let ((i, added), fa, h₁) = >>=-eq-ok (add_snapshot py now incoming.metadata s) _ h' in
    let (filled, ff, h₂) = >>=-eq-ok (add_entities i incoming added) _ h₁ in
    let k : i ≡ r.snapshot_id = ground arith in
    let w : t ≡ publish incoming.metadata.mode i now' filled = ground arith in
    (
      added,
      filled,
      subst (λ x. add_snapshot py now incoming.metadata s ≡ ok (x, added)) k fa,
      subst (λ x. add_entities x incoming added ≡ ok filled) k ff,
      subst (λ x. t ≡ publish incoming.metadata.mode x now' filled) k w,
    )

-- After an import the store has the incoming snapshot, under the identifier of the result, which
-- is the mode's current snapshot; the current snapshots of the other modes are as they were.
pub import_snapshot-current :
    (py : Builtins) (now now' : ℕ) (busy : Bool) (incoming : StructuredSnapshot) (s t : Store)
    (r : ImportResult) (m : String)
    → import_snapshot py now now' busy incoming s ≡ ok (r, t)
    → (row : SnapshotRow) × (existing_snapshot incoming.metadata t ≡ some row)
      × (row.id ≡ r.snapshot_id)
      × (current_of m t
          ≡ (if m == incoming.metadata.mode then some r.snapshot_id else current_of m s))
unfolding import_snapshot
import_snapshot-current py now now' true incoming s t r m h = cc
import_snapshot-current py now now' false incoming s t r m h =
    elim (Option-cases (existing_snapshot incoming.metadata s)) [
      | inr (row, e) ↦
          let h' : republish now' incoming row s ≡ ok (r, t) = ground arith in
          let (k, same, c) = republish-current now' incoming row s t r m h' in (row, same ∙ e, k, c)
      | inl e ↦
          let (added, filled, fa, ff, w) = import_snapshot-steps py now now' incoming s t r e h in
          let (row, found, k, c) =
            add_snapshot-new py now r.snapshot_id incoming.metadata s added e fa in
          let (ss, cc', _) = add_entities-snapshots r.snapshot_id incoming added filled ff in
          let stays = existing-same incoming.metadata added filled ss in
          let before = current_of-same m s filled (cc' ∙ c) in
          let after = current_of-publish m incoming.metadata.mode r.snapshot_id now' filled in
          (
            row,
            rw w (
                existing-publish incoming.metadata incoming.metadata.mode r.snapshot_id now' filled
                ∙ stays
                ∙ found),
            k,
            rw w (rw before at after),
          )
    ]
