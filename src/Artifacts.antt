-- ===== src/Artifacts.antt =====
-- packages/database/src/repositories/operations/artifacts.ts and
-- packages/runtime/src/artifacts/artifact-store.ts: immutable artifacts, kept by identifier and by
-- content hash. `hash` stands for `hashArtifact` (SHA-256 of the canonical JSON text).
pub mod Laws
use plus_one.Common.{
  ℕ, String, Bool, not, List, ◌∷◌, Option, none, some, str_eq, find, any, if◌then◌else◌, ◌&&◌,
  false,
}
use plus_one.Common.Errors.{
  Thrown, database_error, failure, validation_rejected, never, constraint_violation,
}
use plus_one.Common.Effects.{Call, threw, done, throw, catch, ◌>>◌, return}
use plus_one.Storage.{Db, Artifact, Payload, is_task}

-- createArtifactEnvelope: the envelope is hashed from its own payload.
abbrev pub create_artifact_envelope :
    (Payload → String) → String → String → String → String → String → ℕ → Payload → Artifact
create_artifact_envelope hash household task id artifact_type schema_name schema_version payload =
    record {
      artifact_id = id;
      household_id = household;
      task_id = task;
      artifact_type = artifact_type;
      schema_name = schema_name;
      schema_version = schema_version;
      artifact_hash = hash payload;
      payload = payload;
    }

abbrev pub has_id : String → Artifact → Bool
has_id id a = str_eq a.artifact_id id

abbrev pub has_task_hash : String → String → String → Artifact → Bool
has_task_hash household task digest a =
    str_eq a.household_id household && str_eq a.task_id task && str_eq a.artifact_hash digest

-- INSERT … SELECT, with the constraints of the table in the order in which they are checked.
unfoldable pub insert_artifact : Artifact → Call Db (Unit {0})
insert_artifact a db =
    if not (any (str_eq a.household_id) db.households)
    then threw (failure validation_rejected "artifact_household_not_found" never false) db
    else if any (has_id a.artifact_id) db.artifacts
    then threw (database_error "23505" "artifacts_public_id_unique") db
    else if any (has_task_hash a.household_id a.task_id a.artifact_hash) db.artifacts
    then threw (database_error "23505" "artifacts_household_task_hash_unique") db
    else if not (any (is_task a.household_id a.task_id) db.tasks)
    then threw (database_error "23503" "artifacts_task_fk") db
    else done tt (record db { artifacts = a ∷ db.artifacts })

abbrev pub find_artifact : String → Db → Option Artifact
find_artifact id db = find (has_id id) db.artifacts

abbrev pub find_by_task_and_hash : String → String → String → Db → Option Artifact
find_by_task_and_hash household task digest db =
    find (has_task_hash household task digest) db.artifacts

abbrev pub is_duplicate_artifact_hash : Thrown → Bool
is_duplicate_artifact_hash (database_error sqlstate constraint) =
    str_eq sqlstate "23505" && str_eq constraint "artifacts_household_task_hash_unique"
is_duplicate_artifact_hash _ = false

or_existing : Thrown → Artifact → Call Db Artifact
or_existing e a db =
    if not (is_duplicate_artifact_hash e)
    then threw e db
    else elim (find_by_task_and_hash a.household_id a.task_id a.artifact_hash db) [
      | none ↦ threw e db
      | some existing ↦ done existing db
    ]

module _ (hash : Payload → String) where
  -- ArtifactStore.save.
  unfoldable pub save : Artifact → Call Db Artifact
  unfolding insert_artifact or_existing
  save a db =
      if not (str_eq (hash a.payload) a.artifact_hash)
      then threw (failure validation_rejected "artifact_hash_mismatch" never false) db
      else elim (insert_artifact a db) [
        | done _ stored ↦ done a stored
        | threw e same ↦ or_existing e a same
      ]

  -- ArtifactStore.getVerified.
  unfoldable pub get_verified : String → Call Db Artifact
  get_verified id db = elim (find_artifact id db) [
    | none ↦ threw (failure validation_rejected "artifact_not_found" never false) db
    | some a ↦
        if str_eq (hash a.payload) a.artifact_hash
        then done a db
        else threw (failure constraint_violation "artifact_hash_mismatch" never false) db
  ]
