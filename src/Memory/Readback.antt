-- ===== src/Memory/Readback.antt =====
-- apps/engine/src/memory/working-memory-document.ts: the two checks of a document after a mutation.
use plus_one.Common.{same_option_refl, ℕ, String, not, Option, none, some, ◌≡◌, refl, true, arith}
use plus_one.Memory.{
  Entry, Document, entry_at, with_entry, Mutation, create, replace, delete, clear, succeeded, Kind,
  Lifecycle,
}
use plus_one.Memory.Entries.{same_scope_refl, entry_at-with_entry, entry_at-without_entry}
use plus_one.Memory.Applied.{create-inv, replace-inv, delete-inv}
use plus_one.Memory.Document.{
  apply_mutation, effect_is_present, verify_readback, comparable, with_mutation_lifecycle,
  same_kind,
}
use text.Mathlib.TextPositions.{eq_refl}

same_kind_refl : (k : Kind) → same_kind k k ≡ true
same_kind_refl k = ground arith

comparable-with_lifecycle :
    (e : Entry) (l : Option Lifecycle) (now : ℕ)
    → comparable (with_mutation_lifecycle e l now) e ≡ true
comparable-with_lifecycle e l now = ground (
  arith,
  same_kind_refl e.kind,
  same_scope_refl e.scope,
  same_option_refl e.owner,
  eq_refl e.summary,
  eq_refl e.value,
)

entry_at-set :
    (id : String) (e : Entry) (d d' : Document) → d' ≡ with_entry id e d → entry_at id d' ≡ some e
entry_at-set id e d d' new = rw new (ground (arith, eq_refl id, entry_at-with_entry id id e d))

module _ (size : Document → ℕ) (d d' : Document) (principal : String) (now : ℕ) where
  -- After a mutation was applied its effect is present, and the read-back check accepts it exactly
  -- when the effect was not present before: a replacement by a comparable entry and the clearing
  -- of an empty document are reported as mismatches.
  pub apply_mutation-verified :
      (m : Mutation)
      → apply_mutation size m d principal now ≡ succeeded d'
      → (effect_is_present d' m ≡ true) × (verify_readback d d' m ≡ not (effect_is_present d m))
  unfolding effect_is_present verify_readback
  apply_mutation-verified (create id e) h =
      let (before, mine, new) = create-inv size d d' principal now id e h in
      let after = entry_at-set id (with_mutation_lifecycle e none now) d d' new in
      rw (before, after, comparable-with_lifecycle e none now) (refl, refl)
  apply_mutation-verified (replace id e) h =
      let (x, before, mine, scope, owner, new) = replace-inv size d d' principal now id e h in
      let after = entry_at-set id (with_mutation_lifecycle e x.lifecycle now) d d' new in
      rw (before, after, comparable-with_lifecycle e x.lifecycle now) (refl, ground arith)
  apply_mutation-verified (delete id) h =
      let (x, before, mine, new) = delete-inv size d d' principal now id h in
      let after : entry_at id d' ≡ none =
        rw new (ground (arith, eq_refl id, entry_at-without_entry id id d)) in
      rw (before, after) (refl, refl)
  apply_mutation-verified clear h = unfold apply_mutation in (ground arith, ground arith)
