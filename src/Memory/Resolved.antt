-- ===== src/Memory/Resolved.antt =====
-- apps/engine/src/memory/working-memory-document.ts: a draft that was resolved can be applied.
use plus_one.Common.{
  same_option_refl, ℕ, String, Bool, all, [], ◌∷◌, Option, none, some, ◌≡◌, ◌⊎◌, inl, inr, refl,
  true, false, arith, if◌then◌else◌, same_option, is_some, Bool-cases,
}
use plus_one.Memory.{
  Entry, Document, entry_at, with_entry, without_entry, create, replace, delete, clear, succeeded,
  failed, Kind, household, member, Draft, creating, replacing, deleting, clearing, write_rejected,
  Result, is_owned,
}
use plus_one.Memory.Entries.{same_scope_refl}
use plus_one.Memory.Document.{
  apply_mutation, resolve_mutation, Resolution, is_document, can_access, same_scope, owner_kept,
  resolved_replace, resolved, resolved_delete, with_mutation_lifecycle, resolved_create,
}
use text.Mathlib.TextPositions.{eq_refl}

abbrev all_owned : Document → Bool
all_owned d = all (λ (p : String × Entry). is_owned p.1) d

entry_at-is_owned :
    (id : String) (d : Document) (e : Entry)
    → all_owned d ≡ true
    → entry_at id d ≡ some e
    → is_owned e ≡ true
entry_at-is_owned id [] e h found = absurd (cc)
entry_at-is_owned id ((k, x) ∷ d) e h found = ground (arith, entry_at-is_owned id d e)

-- A call that succeeds, or that refuses the document it would have to write.
abbrev pub IsApplied : Result Document → Type 0
IsApplied r = ((d' : Document) × (r ≡ succeeded d')) ⊎ (r ≡ failed write_rejected)

parsed-IsApplied :
    (b : Bool) (d : Document) → IsApplied (if b then succeeded d else failed write_rejected)
parsed-IsApplied true d = inl (d, refl)
parsed-IsApplied false d = inr refl

owner_kept-eq : (x : Entry) → is_owned x ≡ true → owner_kept x.scope x.owner ≡ x.owner
owner_kept-eq x h = ground arith

-- The entry that a replacement puts in place of `x`.
abbrev replacement : Kind → String → String → Entry → Entry
replacement kind summary value x = record {
  kind = kind;
  summary = summary;
  scope = x.scope;
  owner = owner_kept x.scope x.owner;
  value = value;
  lifecycle = none;
}

replacement-is_owned :
    (kind : Kind) (summary value : String) (x : Entry)
    → is_owned x ≡ true
    → is_owned (replacement kind summary value x) ≡ true
replacement-is_owned kind summary value x h = rw (owner_kept-eq x h) h

resolved_replace-inv :
    (id : String) (kind : Kind) (summary value : String) (old : Option Entry) (principal : String)
    (r : Resolution)
    → resolved_replace id kind summary value old principal ≡ succeeded r
    → (x : Entry) × (old ≡ some x)
      × (can_access x principal ≡ true)
      × (r.mutation ≡ replace id (replacement kind summary value x))
resolved_replace-inv id kind summary value none principal r h = absurd (cc)
resolved_replace-inv id kind summary value (some x) principal r h =
    (x, refl, ground arith, ground arith)

resolved_delete-inv :
    (id : String) (old : Option Entry) (principal : String) (r : Resolution)
    → resolved_delete id old principal ≡ succeeded r
    → (x : Entry) × (old ≡ some x) × (can_access x principal ≡ true) × (r.mutation ≡ delete id)
resolved_delete-inv id none principal r h = absurd (cc)
resolved_delete-inv id (some x) principal r h = (x, refl, ground arith, ground arith)

module _ (size : Document → ℕ) (d : Document) (principal : String) (now : ℕ) where
  replace-IsApplied :
      (id : String) (e x : Entry)
      → entry_at id d ≡ some x
      → can_access x principal ≡ true
      → is_owned e ≡ true
      → same_scope x.scope e.scope ≡ true
      → same_option x.owner e.owner ≡ true
      → IsApplied (apply_mutation size (replace id e) d principal now)
  unfolding apply_mutation
  replace-IsApplied id e x found mine owned scope owner =
      rw (owned, found, mine, scope, owner)
        (parsed-IsApplied
          (is_document size (with_entry id (with_mutation_lifecycle e x.lifecycle now) d))
          (with_entry id (with_mutation_lifecycle e x.lifecycle now) d))

  delete-IsApplied :
      (id : String) (x : Entry)
      → entry_at id d ≡ some x
      → can_access x principal ≡ true
      → IsApplied (apply_mutation size (delete id) d principal now)
  unfolding apply_mutation
  delete-IsApplied id x found mine =
      rw (found, mine)
        (parsed-IsApplied (is_document size (without_entry id d)) (without_entry id d))

  create-IsApplied :
      (id : String) (e : Entry)
      → can_access e principal ≡ true
      → is_owned e ≡ true
      → IsApplied (apply_mutation size (create id e) d principal now)
  unfolding apply_mutation
  create-IsApplied id e mine owned = elim (Bool-cases (is_some (entry_at id d))) [
    | inl taken ↦ rw (owned, taken) (inr refl)
    | inr free ↦
        rw (owned, free, mine)
          (parsed-IsApplied
            (is_document size (with_entry id (with_mutation_lifecycle e none now) d))
            (with_entry id (with_mutation_lifecycle e none now) d))
  ]

  draft-IsApplied :
      (fresh : String) (draft : Draft) (r : Resolution)
      → all_owned d ≡ true
      → resolved fresh draft d principal ≡ succeeded r
      → IsApplied (apply_mutation size r.mutation d principal now)
  draft-IsApplied fresh (creating kind summary household value) r owned h =
      let same : r ≡ resolved_create fresh kind summary household value d principal = cc in
      rw same (create-IsApplied fresh _ refl refl)
  draft-IsApplied fresh (creating kind summary member value) r owned h =
      let same : r ≡ resolved_create fresh kind summary member value d principal = cc in
      rw same (create-IsApplied fresh _ (eq_refl principal) refl)
  draft-IsApplied fresh (replacing id kind summary value) r owned h =
      let (x, found, mine, is) =
        resolved_replace-inv id kind summary value (entry_at id d) principal r h in
      let x_owned = entry_at-is_owned id d x owned found in
      let e = replacement kind summary value x in
      let owner : same_option x.owner e.owner ≡ true =
        rw (owner_kept-eq x x_owned) (same_option_refl x.owner) in
      rw is (
        replace-IsApplied id e x found mine (replacement-is_owned kind summary value x x_owned)
          (same_scope_refl x.scope) owner)
  draft-IsApplied fresh (deleting id) r owned h =
      let (x, found, mine, is) = resolved_delete-inv id (entry_at id d) principal r h in
      rw is (delete-IsApplied id x found mine)
  draft-IsApplied fresh clearing r owned h =
      let is : r.mutation ≡ clear = ground arith in rw is (unfold apply_mutation in inl ([], refl))

  -- A draft that was resolved against a well-formed document can be applied to it by the same
  -- principal: the mutation succeeds, or the document that it would leave, or an identifier that is
  -- taken, is refused as `write_rejected`; it is never invalid, forbidden or without its entry.
  pub resolve_mutation-IsApplied :
      (revision : Document → String) (fresh based_on : String) (draft : Draft) (r : Resolution)
      → is_document size d ≡ true
      → resolve_mutation revision fresh based_on draft d principal ≡ succeeded r
      → IsApplied (apply_mutation size r.mutation d principal now)
  unfolding resolve_mutation
  resolve_mutation-IsApplied revision fresh based_on draft r w h =
      draft-IsApplied fresh draft r (ground arith) (ground arith)
