-- ===== src/Jcc/Store/Tables.antt =====
-- app/jcc_data/models.py: the tables of the snapshots, and insertion into them.
use tsuz_api_jcc.Base.{
  ℕ, suc, String, Bool, ◌&&◌, Option, none, some, List, [], ◌∷◌, ◌++◌, any, keep, length, Eq, ◌==◌,
  string_eq, nat_eq, if◌then◌else◌,
}
use tsuz_api_jcc.Base.Dict
use tsuz_api_jcc.Base.Dict.{Dict}
use tsuz_api_jcc.Base.Result.{Result, ok, err, ◌>>=◌}
use tsuz_api_jcc.Jcc.Json.{Json}
use tsuz_api_jcc.Jcc.Adapters.Data.{
  TraitKind, kind_eq, int_eq, key_eq, SnapshotData, HeroData, TraitTierData, TraitData,
  EquipmentData, AugmentData, AdventureData, GalaxyData,
}

-- A row of an entity: its primary key, the snapshot (of a tier: the trait) that owns it, its columns.
pub record Row (A : Type 0) : Type 0 where
  pub id : ℕ
  pub owner : ℕ
  pub value : A

-- A table and the next key that the database gives.
pub record Table (A : Type 0) : Type 0 where
  pub next : ℕ
  pub rows : List (Row A)

-- The columns that relations have in place of external identifiers.
pub record HeroTraitRow : Type 0 where
  pub hero_id : ℕ
  pub trait_id : ℕ
  pub relation_kind : TraitKind
  pub position : ℕ

pub record RecipeRow : Type 0 where
  pub equipment_id : ℕ
  pub first_component_equipment_id : ℕ
  pub second_component_equipment_id : ℕ

-- `JccSnapshot`; the columns that are those of the data class stand in `value`.
pub record SnapshotRow : Type 0 where
  pub id : ℕ
  pub value : SnapshotData
  pub version_start_time : Option String
  pub imported_at : ℕ

pub record CurrentSnapshot : Type 0 where
  pub mode : String
  pub snapshot_id : ℕ
  pub updated_at : ℕ

pub record Store : Type 0 where
  pub next_snapshot : ℕ
  pub snapshots : List SnapshotRow
  pub current : List CurrentSnapshot
  pub heroes : Table HeroData
  pub traits : Table TraitData
  pub tiers : Table TraitTierData
  pub hero_traits : Table HeroTraitRow
  pub equipment : Table EquipmentData
  pub recipes : Table RecipeRow
  pub augments : Table AugmentData
  pub adventures : Table AdventureData
  pub galaxies : Table GalaxyData

-- `RuntimeError`, `ValueError`, `KeyError`, and `IntegrityError` of a constraint; each rolls the
-- transaction back.
pub data StoreError : Type 0 where
  active_transaction incomplete no_such_snapshot key_error integrity : StoreError

pub data Action : Type 0 where
  matched skipped updated : Action

pub record ImportResult : Type 0 where
  pub action : Action
  pub snapshot_id : ℕ
  pub mode : String
  pub version : String
  pub revision : ℕ
  pub content_hash : String
  pub source_updated_at : Json
  pub season : String

module _ {A : Type 0} where
  -- `db.add(row)` and `db.flush()`, with the unique constraint of the table: no row of the same owner
  -- has the same key.
  unfoldable pub add : (A → A → Bool) → ℕ → A → Table A → Result StoreError (ℕ × Table A)
  add same owner value t =
      if any (λ r. r.owner == owner && same value r.value) t.rows
      then err integrity
      else ok (
        t.next,
        record {
          next = suc t.next;
          rows = t.rows ++ record { id = t.next; owner = owner; value = value } ∷ [];
        },
      )

  -- Rows without children, one after the other.
  unfoldable pub add_all : (A → A → Bool) → ℕ → List A → Table A → Result StoreError (Table A)
  add_all same owner [] t = ok t
  add_all same owner (x ∷ xs) t = do (_, t) ← add same owner x t; add_all same owner xs t

  -- Rows that later ones refer to, with the dict from external identifiers to keys.
  unfoldable pub add_keyed :
      {K : Type 0}
      → ⦃e : Eq K⦄ → (A → A → Bool)
      → (A → K)
      → ℕ
      → List A
      → Dict K ℕ
      → Table A
      → Result StoreError (Dict K ℕ × Table A)
  add_keyed same key owner [] ids t = ok (ids, t)
  add_keyed same key owner (x ∷ xs) ids t = do
    (i, t) ← add same owner x t
    add_keyed same key owner xs (Dict.insert (key x) i ids) t

  -- `SELECT count(*) ... WHERE snapshot_id = owner`
  unfoldable pub count : ℕ → Table A → ℕ
  count owner t = length (keep (λ r. r.owner == owner) t.rows)

-- `ids[key]`
unfoldable pub key_of : {K : Type 0} → ⦃e : Eq K⦄ → Dict K ℕ → K → Result StoreError ℕ
key_of ids k = elim (Dict.lookup k ids) [ none ↦ err key_error | some i ↦ ok i ]
