-- ===== src/Artifacts/Laws.antt =====
-- What the artifact store guarantees to its callers.
use mathlib.Core.Path.{sym}
use plus_one.Common.{
  ◌≡◌, String, Bool, false, List, [], ◌∷◌, some, arith, find, any, All, find-All, eq_iff, str_eq,
  inl, inr, ◌⊎◌, ◌∙◌,
}
use plus_one.Storage.{Db, Artifact, Payload}
use plus_one.Artifacts.{has_id, has_task_hash, find_artifact, save, get_verified}
use plus_one.Common.Effects.{done}

-- No two artifacts share an identifier.
abbrev pub HasUniqueIds : List Artifact → Type 0
HasUniqueIds [] = Unit {0}
HasUniqueIds (a ∷ rest) = (any (has_id a.artifact_id) rest ≡ false) × HasUniqueIds rest

module _ (hash : Payload → String) where
  abbrev pub IsHashed : Artifact → Type 0
  IsHashed a = hash a.payload ≡ a.artifact_hash

  -- Every stored artifact carries the hash of its payload, under an identifier of its own.
  pub record IsSound (db : Db) : Type 0 where
    pub hashed : All IsHashed db.artifacts
    pub unique : HasUniqueIds db.artifacts

ne_of_find :
    (id : String) (p : Artifact → Bool) (rest : List Artifact) (b : Artifact)
    → any (has_id id) rest ≡ false
    → find p rest ≡ some b
    → str_eq id b.artifact_id ≡ false
ne_of_find id p [] b n e = cc
ne_of_find id p (a ∷ rest) b n e = ground (
  arith,
  ne_of_find id p rest b,
  eq_iff a.artifact_id id,
  eq_iff id b.artifact_id,
  eq_iff a.artifact_id b.artifact_id,
)

-- What any search finds is found again by its identifier.
find-has_id :
    (p : Artifact → Bool) (rest : List Artifact) (b : Artifact)
    → HasUniqueIds rest
    → find p rest ≡ some b
    → find (has_id b.artifact_id) rest ≡ some b
find-has_id p [] b u e = cc
find-has_id p (a ∷ rest) b u e = ground (
  arith,
  find-has_id p rest b,
  ne_of_find a.artifact_id p rest b,
  eq_iff a.artifact_id b.artifact_id,
)

find-has_task_hash :
    (h t digest : String) (rest : List Artifact) (b : Artifact)
    → find (has_task_hash h t digest) rest ≡ some b
    → (b.household_id ≡ h) × (b.task_id ≡ t) × (b.artifact_hash ≡ digest)
find-has_task_hash h t digest [] b e = cc
find-has_task_hash h t digest (a ∷ rest) b e = ground (
  arith,
  find-has_task_hash h t digest rest b,
  eq_iff a.household_id h,
  eq_iff a.task_id t,
  eq_iff a.artifact_hash digest,
)

module _ (hash : Payload → String) (a b : Artifact) (db after : Db) where
  -- The two ways in which `save` returns: the artifact is new, or its content was stored before.
  save-cases :
      save hash a db ≡ done b after
      → (hash a.payload ≡ a.artifact_hash)
        × (((b ≡ a)
              × (after.artifacts ≡ a ∷ db.artifacts)
              × (any (has_id a.artifact_id) db.artifacts ≡ false))
            ⊎ ((after ≡ db)
                × (find (has_task_hash a.household_id a.task_id a.artifact_hash) db.artifacts
                    ≡ some b)))
  unfolding save
  save-cases e = ground (arith, eq_iff (hash a.payload) a.artifact_hash)

  -- What `save` returns has the content hash of what was saved, and its household and task.
  pub save-keys :
      save hash a db ≡ done b after
      → (b.household_id ≡ a.household_id)
        × (b.task_id ≡ a.task_id)
        × (b.artifact_hash ≡ a.artifact_hash)
  save-keys e =
      let (_, how) = save-cases e in
      elim how [
        | inl (new, _, _) ↦ (cc, cc, cc)
        | inr (_, found) ↦ find-has_task_hash _ _ _ db.artifacts b found
      ]

get_verified_of_found :
    (hash : Payload → String) (id : String) (b : Artifact) (db : Db)
    → find_artifact id db ≡ some b
    → hash b.payload ≡ b.artifact_hash
    → get_verified hash id db ≡ done b db
unfolding get_verified
get_verified_of_found hash id b db e h = ground (arith, eq_iff (hash b.payload) b.artifact_hash)

module _ (hash : Payload → String) (a b : Artifact) (db after : Db) where
  -- Saving keeps the store sound. It returns an artifact of the same household, task and content
  -- hash, new or stored before, which `get_verified` then returns with its hash verified.
  pub save-get_verified :
      IsSound hash db
      → save hash a db ≡ done b after
      → IsSound hash after
        × (get_verified hash b.artifact_id after ≡ done b after)
        × (b.household_id ≡ a.household_id)
        × (b.task_id ≡ a.task_id)
        × (b.artifact_hash ≡ hash a.payload)
  save-get_verified s e =
      let (same, how) = save-cases hash a b db after e in
      elim how [
        | inl (new, stored, fresh) ↦
            let hit : find_artifact b.artifact_id after ≡ some b =
              ground (arith, eq_iff a.artifact_id a.artifact_id) in
            (
              record { hashed = rw stored (same, s.hashed); unique = rw stored (fresh, s.unique) },
              get_verified_of_found hash b.artifact_id b after hit (cc),
              cc,
              cc,
              cc,
            )
        | inr (kept, found) ↦
            let (h, t, d) = find-has_task_hash _ _ _ db.artifacts b found in
            let hit = find-has_id _ db.artifacts b s.unique found in
            let sound = find-All (IsHashed hash) _ db.artifacts b s.hashed found in
            (
              rw kept s,
              rw kept (get_verified_of_found hash b.artifact_id b db hit sound),
              h,
              t,
              d ∙ sym same,
            )
      ]
