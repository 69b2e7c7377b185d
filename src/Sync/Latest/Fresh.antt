-- ===== src/Sync/Latest/Fresh.antt =====
-- scripts/sync_jcc_data.py: what a run of the download does to the raw directory.
use tsuz_api_jcc.Base.{
  ℕ, suc, ◌≤◌, ◌<◌, String, Bool, true, false, not, Option, none, some, List, [], ◌∷◌, ◌++◌, All,
  All-weaken, ltb, ◌==◌, string_eq, ◌≡◌, ◌≢◌, ◌⊎◌, refl, sym, ap, arith, ==→≡, ==_refl, Bool-cases,
  inl, inr,
}
use tsuz_api_jcc.Base.Dict
use tsuz_api_jcc.Base.Members.{Has}
use tsuz_api_jcc.Base.Dict.{Dict}
use tsuz_api_jcc.Base.Result.{guard, ok, >>=-eq-ok, ok_injective}
use mathlib.Core.Path.{subst}
use tsuz_api_jcc.Jcc.Json.{Builtins, Object}
use tsuz_api_jcc.Jcc.Adapters.Data.{VersionSpec, RawSnapshot}
use tsuz_api_jcc.Jcc.Reader.{
  Libraries, File, Location, directory, config_url, decode_json, build_version_spec,
}
use tsuz_api_jcc.Jcc.Reader.Names.{directory_name}
use tsuz_api_jcc.Jcc.Reader.Manifest.{snapshot_content_hash}
use tsuz_api_jcc.Base.Int.{ℤ}
use tsuz_api_jcc.Sync.Fetch.{Attempt}
use tsuz_api_jcc.Sync.Payloads.{
  SyncResult, Directories, Fetcher, Downloads, raising, fetching, invalid, other, parsed,
  read_existing, download_payloads, build_manifest, skipped, matched, updated, bad_timeout,
  bad_retries, lock_unavailable,
}
use tsuz_api_jcc.Sync.Latest.{
  write_snapshot, publish_snapshot, unless_taken, match_or_write, result_of, newest, last_revision,
  with_hash, write_revision, refresh, choose, sync_unlocked, sync_latest, is_above_zero, is_natural,
  fetcher_or_default,
}

-- Nothing is written, and the result is an existing snapshot.
abbrev pub IsUnchanged : List RawSnapshot → Directories → SyncResult → Directories → Type 0
IsUnchanged existing dirs r dirs' =
    (s : RawSnapshot) × Has existing s
    × (dirs' ≡ dirs)
    × (r.directory ≡ s.directory)
    × (r.revision ≡ s.revision)
    × (r.content_hash ≡ s.content_hash)

-- One directory is added under a free name, with a revision above all others and a content that none of them has.
abbrev pub IsAdded : List RawSnapshot → Directories → SyncResult → Directories → Type 0
IsAdded existing dirs r dirs' =
    (files : Dict String File) × (Dict.lookup r.directory dirs ≡ none)
    × (dirs' ≡ dirs ++ (r.directory, directory files) ∷ [])
    × All (λ (s : RawSnapshot). s.revision < r.revision) existing
    × All (λ (s : RawSnapshot). s.content_hash ≢ r.content_hash) existing

abbrev pub Changes : List RawSnapshot → Directories → SyncResult → Directories → Type 0
Changes existing dirs r dirs' = IsUnchanged existing dirs r dirs' ⊎ IsAdded existing dirs r dirs'

not_locked :
    (locked : Bool) (u : Unit {0}) → guard (not locked) lock_unavailable ≡ ok u → locked ≡ false
not_locked false u h = refl
not_locked true u h = cc

module _ (py : Builtins) (lib : Libraries) (dumps : Object → String) (generated_at : String) where
  newest-Has :
      (best : RawSnapshot) (xs : List RawSnapshot)
      → Has (best ∷ xs) (newest py lib dumps generated_at best xs)
  unfolding newest
  newest-Has best [] = inl refl
  newest-Has best (x ∷ xs) = elim (Bool-cases (ltb best.revision x.revision)) [
    | inl t ↦ rw t (inr (newest-Has x xs))
    | inr f ↦ rw f (elim (newest-Has best xs) [ inl h ↦ inl h | inr h ↦ inr (inr h) ])
  ]

  last_revision_lem :
      (xs : List RawSnapshot)
      → All (λ (s : RawSnapshot). s.revision ≤ last_revision py lib dumps generated_at xs) xs
  unfolding last_revision
  last_revision_lem [] = tt
  last_revision_lem (x ∷ xs) =
      let n = last_revision py lib dumps generated_at xs in
      let below : n ≤ last_revision py lib dumps generated_at (x ∷ xs) = ground arith in
      (
        ground arith,
        All-weaken (λ (s : RawSnapshot). s.revision ≤ n)
            (λ (s : RawSnapshot). s.revision ≤ last_revision py lib dumps generated_at (x ∷ xs)) xs
            (λ s l. omega (arith, l, below)) (last_revision_lem xs),
      )

  last_revision_below :
      (xs : List RawSnapshot)
      → All (λ (s : RawSnapshot). s.revision < suc (last_revision py lib dumps generated_at xs)) xs
  last_revision_below xs =
      let n = last_revision py lib dumps generated_at xs in
      All-weaken (λ (s : RawSnapshot). s.revision ≤ n) (λ (s : RawSnapshot). s.revision < suc n) xs
        (λ s l. omega (arith, l)) (last_revision_lem xs)

  with_hash-some :
      (h : String) (xs : List RawSnapshot) (s : RawSnapshot)
      → with_hash py lib dumps generated_at h xs ≡ some s
      → Has xs s × (h ≡ s.content_hash)
  unfolding with_hash
  with_hash-some h [] s e = cc
  with_hash-some h (x ∷ xs) s e = elim (Bool-cases (x.content_hash == h)) [
    | inl t ↦
        (let same : x ≡ s = ground (arith, e, t) in
          (
            inl same,
            rw (sym (==→≡ x.content_hash h t)) (ap (λ (y : RawSnapshot). y.content_hash) same),
          ))
    | inr f ↦ let (k, l) = with_hash-some h xs s (ground (arith, e, f)) in (inr k, l)
  ]

  with_hash-none :
      (h : String) (xs : List RawSnapshot)
      → with_hash py lib dumps generated_at h xs ≡ none
      → All (λ (s : RawSnapshot). s.content_hash ≢ h) xs
  unfolding with_hash
  with_hash-none h [] e = tt
  with_hash-none h (x ∷ xs) e = elim (Bool-cases (x.content_hash == h)) [
    | inl t ↦ absurd (ground (arith, e, t))
    | inr f ↦
        (λ k. absurd (ground (arith, f, k, ==_refl h)), with_hash-none h xs (ground (arith, e, f)))
  ]

  unless_taken-eq-ok :
      (name : String) (published dirs' : Directories) (o : Option Location)
      → unless_taken py lib dumps generated_at name published o ≡ ok dirs'
      → (o ≡ none) × (dirs' ≡ published)
  unless_taken-eq-ok name published dirs' none h = (refl, sym (ok_injective published dirs' h))
  unless_taken-eq-ok name published dirs' (some l) h = cc

  write_revision-IsAdded :
      (spec : VersionSpec) (d : Downloads) (h : String) (existing : List RawSnapshot)
      (dirs dirs' : Directories) (r : SyncResult)
      → with_hash py lib dumps generated_at h existing ≡ none
      → write_revision py lib dumps generated_at spec d
          (suc (last_revision py lib dumps generated_at existing))
          h
          dirs
        ≡ ok (r, dirs')
      → IsAdded existing dirs r dirs'
  unfolding write_revision publish_snapshot
  write_revision-IsAdded spec d h existing dirs dirs' r fresh e =
      let n = suc (last_revision py lib dumps generated_at existing) in
      let name = directory_name spec n in
      let (manifest, _, e) =
        >>=-eq-ok
          (raising other (build_manifest py lib spec (parsed py lib d) n name h generated_at)) _
          e in
      let files = write_snapshot py lib dumps generated_at d manifest in
      let (after, p, e) =
        >>=-eq-ok (publish_snapshot py lib dumps generated_at name files dirs) _ e in
      let (free, added) = unless_taken-eq-ok name _ after (Dict.lookup name dirs) p in
      let same =
        ok_injective (result_of py lib dumps generated_at updated spec name n h, after) (r, dirs')
          e in
      subst (λ q. IsAdded existing dirs q.0 q.1) same
        (files, free, added, last_revision_below existing, with_hash-none h existing fresh)

  match_or_write-Changes :
      (spec : VersionSpec) (d : Downloads) (h : String) (existing : List RawSnapshot)
      (dirs dirs' : Directories) (r : SyncResult) (o : Option RawSnapshot)
      → with_hash py lib dumps generated_at h existing ≡ o
      → match_or_write py lib dumps generated_at spec d h existing dirs o ≡ ok (r, dirs')
      → Changes existing dirs r dirs'
  match_or_write-Changes spec d h existing dirs dirs' r (some s) found e =
      let (k, l) = with_hash-some h existing s found in
      subst (λ q. Changes existing dirs q.0 q.1)
        (ok_injective
          (result_of py lib dumps generated_at matched spec s.directory s.revision h, dirs)
          (r, dirs') e)
        (inl (s, k, refl, refl, refl, l))
  match_or_write-Changes spec d h existing dirs dirs' r none fresh e =
      inr (write_revision-IsAdded spec d h existing dirs dirs' r fresh e)

  refresh-Changes :
      (fetcher : Fetcher) (spec : VersionSpec) (config_raw : String) (existing : List RawSnapshot)
      (dirs dirs' : Directories) (r : SyncResult)
      → refresh py lib dumps generated_at fetcher spec config_raw existing dirs ≡ ok (r, dirs')
      → Changes existing dirs r dirs'
  unfolding refresh
  refresh-Changes fetcher spec config_raw existing dirs dirs' r e =
      let (d, _, e) = >>=-eq-ok (download_payloads py lib fetcher spec config_raw) _ e in
      let (h, _, e) =
        >>=-eq-ok (raising other (snapshot_content_hash py lib (parsed py lib d))) _ e in
      match_or_write-Changes spec d h existing dirs dirs' r _ refl e

  choose-Changes :
      (fetcher : Fetcher) (force : Bool) (spec : VersionSpec) (config_raw : String)
      (existing : List RawSnapshot) (dirs dirs' : Directories) (r : SyncResult)
      → choose py lib dumps generated_at fetcher force spec config_raw existing dirs ≡ ok (r, dirs')
      → Changes existing dirs r dirs'
  choose-Changes fetcher force spec config_raw [] dirs dirs' r e =
      refresh-Changes fetcher spec config_raw [] dirs dirs' r e
  choose-Changes fetcher true spec config_raw (s ∷ rest) dirs dirs' r e =
      refresh-Changes fetcher spec config_raw (s ∷ rest) dirs dirs' r e
  choose-Changes fetcher false spec config_raw (s ∷ rest) dirs dirs' r e =
      let n = newest py lib dumps generated_at s rest in
      subst (λ q. Changes (s ∷ rest) dirs q.0 q.1)
        (ok_injective
          (
            result_of py lib dumps generated_at skipped spec n.directory n.revision n.content_hash,
            dirs,
          )
          (r, dirs') e)
        (inl (n, newest-Has s rest, refl, refl, refl, refl))

  sync_unlocked-Changes :
      (fetcher : Fetcher) (force : Bool) (expected_mode expected_mode_name : String)
      (dirs dirs' : Directories) (r : SyncResult)
      → sync_unlocked py lib dumps generated_at fetcher force expected_mode expected_mode_name dirs
        ≡ ok (r, dirs')
      → (spec : VersionSpec) × (existing : List RawSnapshot) × (read_existing py lib spec dirs
          ≡ ok existing)
        × Changes existing dirs r dirs'
  unfolding sync_unlocked
  sync_unlocked-Changes fetcher force mode mode_name dirs dirs' r e =
      let (config_raw, _, e) = >>=-eq-ok (fetching (fetcher config_url)) _ e in
      let (versions, _, e) = >>=-eq-ok (raising invalid (decode_json py lib config_raw)) _ e in
      let (spec, _, e) =
        >>=-eq-ok (raising invalid (build_version_spec py lib mode mode_name versions)) _ e in
      let (existing, x, e) = >>=-eq-ok (read_existing py lib spec dirs) _ e in
      (spec, existing, x, choose-Changes fetcher force spec config_raw existing dirs dirs' r e)

  -- If the download succeeds, no other process held the lock, all existing snapshots of the version were read, and either the directories are as they were
  -- and the result is one of these snapshots; or one directory is added, under a name that was free, with a revision above
  -- those of all existing snapshots and a content hash that none of them has.
  pub sync_latest-Changes :
      (opener : String → ℕ → Attempt) (locked : Bool) (fetcher : Option Fetcher)
      (timeout retries : ℤ) (force : Bool) (expected_mode expected_mode_name : String)
      (dirs dirs' : Directories) (r : SyncResult)
      → sync_latest py lib dumps generated_at opener locked fetcher timeout retries force
          expected_mode expected_mode_name dirs
        ≡ ok (r, dirs')
      → (locked ≡ false)
        × (spec : VersionSpec) × (existing : List RawSnapshot) × (read_existing py lib spec dirs
            ≡ ok existing)
        × Changes existing dirs r dirs'
  unfolding sync_latest
  sync_latest-Changes opener locked fetcher timeout retries force mode mode_name dirs dirs' r e =
      let (_, _, e) =
        >>=-eq-ok (guard (is_above_zero py lib dumps generated_at timeout) bad_timeout) _ e in
      let (_, _, e) =
        >>=-eq-ok (guard (is_natural py lib dumps generated_at retries) bad_retries) _ e in
      let (u, free, e) = >>=-eq-ok (guard (not locked) lock_unavailable) _ e in
      let (spec, existing, x, c) =
        sync_unlocked-Changes
          (fetcher_or_default py lib dumps generated_at opener timeout retries fetcher) force mode
          mode_name dirs dirs' r e in
      (not_locked locked u free, spec, existing, x, c)
