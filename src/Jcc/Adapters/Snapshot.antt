-- ===== src/Jcc/Adapters/Snapshot.antt =====
-- `build_structured_snapshot` of app/jcc_data/adapters.py.
use tsuz_api_jcc.Base.{Option, some, string_eq}
use tsuz_api_jcc.Base.Dict
use tsuz_api_jcc.Base.Result.{ok, ◌>>=◌}
use tsuz_api_jcc.Jcc.Json.{Json, null, items, Builtins}
use tsuz_api_jcc.Jcc.Scalars.{Checked, get}
use tsuz_api_jcc.Jcc.Adapters.Data.{RawSnapshot, SnapshotData, StructuredSnapshot}
use tsuz_api_jcc.Jcc.Adapters.Traits.{build_traits}
use tsuz_api_jcc.Jcc.Adapters.Entities.{
  build_heroes, build_equipment, build_augments, build_adventures, build_galaxies,
}

-- `chess.get("time") if isinstance(chess, dict) else None`
abbrev time_of : Option Json → Json
time_of (some (Json.obj fs)) = get "time" (items fs)
time_of _ = null

unfoldable pub metadata_of : RawSnapshot → SnapshotData
metadata_of raw = record {
  mode = raw.spec.mode;
  mode_name = raw.spec.mode_name;
  season = raw.spec.season;
  version = raw.spec.version;
  revision = raw.revision;
  set_id = raw.spec.mode;
  raw_directory_name = raw.directory;
  content_hash = raw.content_hash;
  source_updated_at = time_of (Dict.lookup "chess" raw.payloads);
  version_start_time = raw.spec.version_start_time;
  source_manifest = raw.manifest;
}

unfoldable pub build_structured_snapshot : Builtins → RawSnapshot → Checked StructuredSnapshot
build_structured_snapshot py raw = do
  traits ← build_traits py raw
  heroes ← build_heroes py raw traits.1
  equipment ← build_equipment py raw
  augments ← build_augments py raw
  adventures ← build_adventures py raw
  galaxies ← build_galaxies py raw
  ok (record {
    metadata = metadata_of raw;
    heroes = heroes.0;
    traits = traits.0;
    hero_traits = heroes.1;
    equipment = equipment.0;
    equipment_recipes = equipment.1;
    augments = augments;
    adventures = adventures;
    galaxies = galaxies;
  })
