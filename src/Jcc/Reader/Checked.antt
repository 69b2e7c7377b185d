-- ===== src/Jcc/Reader/Checked.antt =====
-- app/jcc_data/snapshot_reader.py: what a snapshot that `read_snapshot` returns is known to satisfy.
use mathlib.Core.Option.{some-injective}
use mathlib.Core.Path.{subst}
use tsuz_api_jcc.Base.{
  all, ℕ, String, Bool, true, false, Option, none, some, List, [], ◌∷◌, All, ◌==◌, string_eq,
  nat_eq, ◌≡◌, refl, sym, ap, ◌∙◌, arith, ==→≡,
}
use tsuz_api_jcc.Base.Dict
use tsuz_api_jcc.Base.Dict.{Dict}
use tsuz_api_jcc.Base.Result.{ok, guard, >>=-eq-ok, ok_injective}
use tsuz_api_jcc.Jcc.Json.{Json, Fields, Object, items, Builtins, to_str}
use tsuz_api_jcc.Jcc.Scalars.{get, has_key}
use tsuz_api_jcc.Jcc.Adapters.Data.{VersionSpec, RawSnapshot, data_of}
use tsuz_api_jcc.Jcc.Reader.{
  Libraries, File, Location, absent, linked, directory, SnapshotError, field_names, required_names,
  base_version, or_else, object_of, validate_payload, validate_resource, is_object, expected_object,
  build_version_spec,
}
use tsuz_api_jcc.Jcc.Reader.Names.{directory_revision}
use tsuz_api_jcc.Jcc.Reader.Manifest.{
  Payloads, snapshot_content_hash, manifest_for, checked_manifest, revision_part, declared_revision,
  declares, read_payloads, validate_payloads, read_snapshot,
}

guard-eq-ok : {E : Type 0} → (b : Bool) (e : E) (u : Unit {0}) → guard b e ≡ ok u → b ≡ true
guard-eq-ok true e u h = refl
guard-eq-ok false e u h = cc

or_else-eq-ok :
    {A : Type 0} → (e : SnapshotError) (o : Option A) (a : A) → or_else e o ≡ ok a → o ≡ some a
or_else-eq-ok e none a h = cc
or_else-eq-ok e (some b) a h = ap some (ok_injective b a h)

module _ (py : Builtins) (lib : Libraries) where
  revision_part-eq-ok :
      (name : String) (files : Dict String File) (spec : VersionSpec) (payloads : Payloads)
      (manifest m : Object) (n : ℕ) (h : String)
      → revision_part py lib name spec payloads manifest ≡ ok (m, n, h)
      → (directory_revision py name spec ≡ ok n) × (snapshot_content_hash py lib payloads ≡ ok h)
  unfolding revision_part
  revision_part-eq-ok name files spec payloads manifest m n h e =
      let (expected, d, e) = >>=-eq-ok (directory_revision py name spec) _ e in
      let (revision, _, e) =
        >>=-eq-ok (declared_revision py lib expected (Dict.lookup "revision" manifest)) _ e in
      let (_, g, e) = >>=-eq-ok (guard (revision == expected) _) _ e in
      let (hash, k, e) = >>=-eq-ok (snapshot_content_hash py lib payloads) _ e in
      let (_, _, e) =
        >>=-eq-ok (guard (declares py lib hash (Dict.lookup "content_hash" manifest)) _) _ e in
      let (_, _, e) =
        >>=-eq-ok
          (guard (declares py lib (base_version spec) (Dict.lookup "base_version" manifest)) _) _
          e in
      let (_, _, e) =
        >>=-eq-ok (guard (declares py lib name (Dict.lookup "raw_directory_name" manifest)) _) _
          e in
      let same = ok_injective _ (m, n, h) e in
      let same_revision = ==→≡ revision expected (guard-eq-ok (revision == expected) _ _ g) in
      (d ∙ ap ok (sym same_revision ∙ ap (λ x. x.1) same), k ∙ ap (λ x. ok x.2) same)

  manifest_for-eq-ok :
      (name : String) (files : Dict String File) (spec : VersionSpec) (payloads : Payloads)
      (m : Object) (n : ℕ) (h : String)
      → manifest_for py lib name files spec payloads ≡ ok (m, n, h)
      → (directory_revision py name spec ≡ ok n) × (snapshot_content_hash py lib payloads ≡ ok h)
  unfolding manifest_for
  manifest_for-eq-ok name files spec payloads m n h e =
      let (manifest, _, e) = >>=-eq-ok (checked_manifest py lib files spec payloads) _ e in
      revision_part-eq-ok name files spec payloads manifest m n h e

  -- A payload that passed the check under its name.
  Validated : VersionSpec → Payloads → String → Type 0
  Validated spec payloads name =
      (p : Json) × (Dict.lookup name payloads ≡ some p)
      × (validate_payload py lib name p spec ≡ ok tt)

  All-Validated :
      (spec : VersionSpec) (payloads : Payloads) (names : List String)
      → validate_payloads py lib spec payloads names ≡ ok tt
      → All (Validated spec payloads) names
  unfolding validate_payloads Validated
  All-Validated spec payloads [] h = tt
  All-Validated spec payloads (name ∷ names) h =
      let (p, f, h) = >>=-eq-ok (or_else _ (Dict.lookup name payloads)) _ h in
      let (_, v, h) = >>=-eq-ok (validate_payload py lib name p spec) _ h in
      ((p, or_else-eq-ok _ (Dict.lookup name payloads) p f, v), All-Validated spec payloads names h)

  is_object-obj : (j : Json) → is_object py lib j ≡ true → (fs : Fields) × (j ≡ Json.obj fs)
  is_object-obj Json.null h = cc
  is_object-obj (Json.bool b) h = cc
  is_object-obj (Json.int i) h = cc
  is_object-obj (Json.float t) h = cc
  is_object-obj (Json.str t) h = cc
  is_object-obj (Json.arr vs) h = cc
  is_object-obj (Json.obj fs) h = (fs, refl)

  object_of-some :
      (j : Json) (o : Object)
      → object_of j ≡ some o
      → (fs : Fields) × (j ≡ Json.obj fs) × (o ≡ items fs)
  object_of-some Json.null o h = cc
  object_of-some (Json.bool b) o h = cc
  object_of-some (Json.int i) o h = cc
  object_of-some (Json.float t) o h = cc
  object_of-some (Json.str t) o h = cc
  object_of-some (Json.arr vs) o h = cc
  object_of-some (Json.obj fs) o h = (fs, refl, some-injective o (items fs) (sym h))

  resource_data :
      (spec : VersionSpec) (p : Json)
      → validate_resource py lib spec p ≡ ok tt
      → (fs : Fields) × (gs : Fields) × (p ≡ Json.obj fs) × (get "data" (items fs) ≡ Json.obj gs)
  resource_data spec p h =
      let (entry, o, h) = >>=-eq-ok (or_else expected_object (object_of p)) _ h in
      let (fs, e, k) = object_of-some p entry (or_else-eq-ok _ (object_of p) entry o) in
      let keys = "version" ∷ "season" ∷ "setId" ∷ "data" ∷ [] in
      let (_, _, h) = >>=-eq-ok (guard (all (λ key. has_key key entry) keys) _) _ h in
      let (_, _, h) = >>=-eq-ok (guard (to_str py (get "version" entry) == spec.version) _) _ h in
      let (_, _, h) = >>=-eq-ok (guard (to_str py (get "season" entry) == spec.season) _) _ h in
      let (_, _, h) = >>=-eq-ok (guard (to_str py (get "setId" entry) == spec.mode) _) _ h in
      let (gs, g) = is_object-obj (get "data" entry) (guard-eq-ok _ _ _ h) in
      (fs, gs, e, ap (get "data") (sym k) ∙ g)

  -- The resources have objects as their data.
  unfoldable pub HasData : RawSnapshot → String → Type 0
  HasData raw name = (found : Object) × (data_of raw name ≡ ok found)

  data_of-obj :
      (raw : RawSnapshot) (name : String) (p : Json) (fs gs : Fields)
      → Dict.lookup name raw.payloads ≡ some p
      → p ≡ Json.obj fs
      → get "data" (items fs) ≡ Json.obj gs
      → data_of raw name ≡ ok (items gs)
  unfolding data_of
  data_of-obj raw name p fs gs f e g = rw (f, e, g) refl

  resource-HasData :
      (raw : RawSnapshot) (name : String)
      → (name == "versiondataconfig") ≡ false
      → (name == "lineup_detail_total") ≡ false
      → Validated raw.spec raw.payloads name
      → HasData raw name
  unfolding Validated HasData validate_payload data_of
  resource-HasData raw name a b (p, f, v) =
      let checked : validate_resource py lib raw.spec p ≡ ok tt = ground (arith, a, b, v) in
      let (fs, gs, e, g) = resource_data raw.spec p checked in
      (items gs, data_of-obj raw name p fs gs f e g)

  fields-HasData :
      (raw : RawSnapshot)
      → All (Validated raw.spec raw.payloads) required_names
      → All (HasData raw) field_names
  unfolding string_eq
  fields-HasData raw (_, v) =
      let (chess, v) = v in
      let (race, v) = v in
      let (job, v) = v in
      let (trait, v) = v in
      let (equip, v) = v in
      let (hex, v) = v in
      let (adventure, v) = v in
      let (galaxy, v) = v in
      (
        resource-HasData raw "chess" refl refl chess,
        (
          resource-HasData raw "race" refl refl race,
          (
            resource-HasData raw "job" refl refl job,
            (
              resource-HasData raw "trait" refl refl trait,
              (
                resource-HasData raw "equip" refl refl equip,
                (
                  resource-HasData raw "hex" refl refl hex,
                  (
                    resource-HasData raw "adventure" refl refl adventure,
                    (resource-HasData raw "galaxy" refl refl galaxy, tt),
                  ),
                ),
              ),
            ),
          ),
        ),
      )

  -- A snapshot that is read has the name of the directory, whose revision is its own; its content hash is that of its payloads; and each of the
  -- eight resources has an object as its data, so that the adapters never refuse it for that.
  pub read_snapshot_sound :
      (expected_mode expected_mode_name name : String) (location : Location) (raw : RawSnapshot)
      → read_snapshot py lib expected_mode expected_mode_name name location ≡ ok raw
      → (raw.directory ≡ name)
        × (directory_revision py name raw.spec ≡ ok raw.revision)
        × (snapshot_content_hash py lib raw.payloads ≡ ok raw.content_hash)
        × All (HasData raw) field_names
  unfolding read_snapshot
  read_snapshot_sound mode mode_name name linked raw h = cc
  read_snapshot_sound mode mode_name name absent raw h = cc
  read_snapshot_sound mode mode_name name (directory files) raw h =
      let (payloads, _, h) = >>=-eq-ok (read_payloads py lib files required_names) _ h in
      let (versions, _, h) = >>=-eq-ok (or_else _ (Dict.lookup "versiondataconfig" payloads)) _ h in
      let (spec, _, h) = >>=-eq-ok (build_version_spec py lib mode mode_name versions) _ h in
      let (_, v, h) = >>=-eq-ok (validate_payloads py lib spec payloads required_names) _ h in
      let ((m, n, k), e, h) = >>=-eq-ok (manifest_for py lib name files spec payloads) _ h in
      let (d, hash) = manifest_for-eq-ok name files spec payloads m n k e in
      let read : RawSnapshot = record {
        directory = name;
        manifest = m;
        payloads = payloads;
        revision = n;
        content_hash = k;
        spec = spec;
      } in
      subst
        (λ r.
          (r.directory ≡ name)
          × (directory_revision py name r.spec ≡ ok r.revision)
          × (snapshot_content_hash py lib r.payloads ≡ ok r.content_hash)
          × All (HasData r) field_names)
        (ok_injective read raw h)
        (refl, d, hash, fields-HasData read (All-Validated spec payloads required_names v))
