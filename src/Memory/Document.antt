-- ===== src/Memory/Document.antt =====
-- apps/engine/src/memory/working-memory-document.ts: what a principal sees of the working memory,
-- how a draft becomes a mutation, and what a mutation does. `size` is the number of bytes of a
-- document's JSON text, `revision` its hash, and the clock's time is an argument.
use plus_one.Common.{
  ℕ, String, Bool, List, [], Option, none, some, str_eq, if◌then◌else◌, true, false, not, ◌&&◌,
  ◌||◌, leb, length, all, any, same_option, is_some, map, keep, ◌==◌,
}
use plus_one.Memory.{
  Kind, Scope, household, member, Lifecycle, Entry, Document, entry_at, with_entry, without_entry,
  is_owned, Mutation, create, replace, delete, clear, Draft, creating, replacing, deleting,
  clearing, Result, succeeded, failed, mutation_invalid, revision_conflict, entry_not_found,
  entry_forbidden, write_rejected,
}

abbrev kind_index : Kind → ℕ
kind_index Kind.goal = 0
kind_index Kind.saving_preference = 1
kind_index Kind.communication_preference = 2
kind_index Kind.convention = 3
kind_index Kind.member_context = 4
kind_index Kind.other = 5

abbrev pub same_kind : Kind → Kind → Bool
same_kind a b = kind_index a == kind_index b

abbrev pub same_scope : Scope → Scope → Bool
same_scope household household = true
same_scope member member = true
same_scope _ _ = false

abbrev is_household : Scope → Bool
is_household household = true
is_household member = false

abbrev pub can_access : Entry → String → Bool
can_access e principal = is_household e.scope || same_option e.owner (some principal)

-- An entry as a principal inspects it.
pub record Visible : Type 0 where
  pub entry_id : String
  pub kind : Kind
  pub summary : String
  pub scope : Scope
  pub value : String

abbrev shown : String × Entry → Visible
shown (id, e) = record {
  entry_id = id;
  kind = e.kind;
  summary = e.summary;
  scope = e.scope;
  value = e.value;
}

abbrev pub visible_entries : Document → String → List Visible
visible_entries d principal = map shown (keep (λ (p : String × Entry). can_access p.1 principal) d)

abbrev created_or : Option Lifecycle → ℕ → ℕ
created_or none now = now
created_or (some l) now = l.created_at

abbrev kept_instant : (Lifecycle → Option ℕ) → Option Lifecycle → Option ℕ
kept_instant field none = none
kept_instant field (some l) = field l

abbrev pub lifecycle_for_mutation : Option Lifecycle → ℕ → Lifecycle
lifecycle_for_mutation existing now = record {
  created_at = created_or existing now;
  updated_at = now;
  last_reviewed_at = kept_instant (λ (l : Lifecycle). l.last_reviewed_at) existing;
  expires_at = kept_instant (λ (l : Lifecycle). l.expires_at) existing;
}

abbrev pub with_mutation_lifecycle : Entry → Option Lifecycle → ℕ → Entry
with_mutation_lifecycle e existing now = record e {
  lifecycle = some (lifecycle_for_mutation existing now);
}

-- Two entries with the same `comparableWorkingMemoryEntry`.
abbrev pub comparable : Entry → Entry → Bool
comparable a b =
    same_kind a.kind b.kind
    && str_eq a.summary b.summary
    && same_scope a.scope b.scope
    && same_option a.owner b.owner
    && str_eq a.value b.value

module _ (size : Document → ℕ) where
  -- FlexibleWorkingMemorySchema.safeParse of a document.
  abbrev pub is_document : Document → Bool
  is_document d =
      all (λ (p : String × Entry). is_owned p.1) d && leb (length d) 50 && leb (size d) 65536

  abbrev pub parsed : Document → Result Document
  parsed d = if is_document d then succeeded d else failed write_rejected

  abbrev pub applied_create : String → Entry → Document → String → ℕ → Result Document
  applied_create id e d principal now =
      if is_some (entry_at id d)
      then failed write_rejected
      else if not (can_access e principal)
      then failed entry_forbidden
      else parsed (with_entry id (with_mutation_lifecycle e none now) d)

  abbrev pub applied_replace :
      String → Entry → Option Entry → Document → String → ℕ → Result Document
  applied_replace id e none d principal now = failed entry_not_found
  applied_replace id e (some existing) d principal now =
      if not (can_access existing principal)
      then failed entry_forbidden
      else if not (same_scope existing.scope e.scope) || not (same_option existing.owner e.owner)
      then failed entry_forbidden
      else parsed (with_entry id (with_mutation_lifecycle e existing.lifecycle now) d)

  abbrev pub applied_delete : String → Option Entry → Document → String → Result Document
  applied_delete id none d principal = failed entry_not_found
  applied_delete id (some existing) d principal =
      if not (can_access existing principal)
      then failed entry_forbidden
      else parsed (without_entry id d)

  -- ResolvedWorkingMemoryMutationSchema.safeParse.
  abbrev pub is_mutation : Mutation → Bool
  is_mutation (create id e) = is_owned e
  is_mutation (replace id e) = is_owned e
  is_mutation _ = true

  abbrev pub applied : Mutation → Document → String → ℕ → Result Document
  applied clear d principal now = succeeded []
  applied (create id e) d principal now = applied_create id e d principal now
  applied (replace id e) d principal now = applied_replace id e (entry_at id d) d principal now
  applied (delete id) d principal now = applied_delete id (entry_at id d) d principal

  unfoldable pub apply_mutation : Mutation → Document → String → ℕ → Result Document
  apply_mutation m d principal now =
      if is_mutation m then applied m d principal now else failed mutation_invalid

abbrev pub has_comparable : Option Entry → Entry → Bool
has_comparable none e = false
has_comparable (some actual) e = comparable actual e

unfoldable pub verify_readback : Document → Document → Mutation → Bool
verify_readback before after (create id e) =
    has_comparable (entry_at id after) e && not (is_some (entry_at id before))
verify_readback before after (replace id e) =
    is_some (entry_at id before)
    && not (has_comparable (entry_at id before) e)
    && has_comparable (entry_at id after) e
verify_readback before after (delete id) =
    is_some (entry_at id before) && not (is_some (entry_at id after))
verify_readback before after clear = length after == 0 && not (length before == 0)

unfoldable pub effect_is_present : Document → Mutation → Bool
effect_is_present d (create id e) = has_comparable (entry_at id d) e
effect_is_present d (replace id e) = has_comparable (entry_at id d) e
effect_is_present d (delete id) = not (is_some (entry_at id d))
effect_is_present d clear = length d == 0

-- A resolved draft, with whether it needs a confirmation.
pub record Resolution : Type 0 where
  pub mutation : Mutation
  pub requires_confirmation : Bool

abbrev pub owner_for : Scope → String → Option String
owner_for household principal = none
owner_for member principal = some principal

abbrev pub with_confirmation : Mutation → Result Resolution
with_confirmation m = succeeded (record { mutation = m; requires_confirmation = true })

abbrev pub resolved_create :
    String → Kind → String → Scope → String → Document → String → Resolution
resolved_create fresh kind summary scope value d principal = record {
  mutation = create fresh (record {
    kind = kind;
    summary = summary;
    scope = scope;
    owner = owner_for scope principal;
    value = value;
    lifecycle = none;
  });
  requires_confirmation =
      any (λ (v : Visible). same_kind v.kind kind) (visible_entries d principal);
}

abbrev pub owner_kept : Scope → Option String → Option String
owner_kept household owner = none
owner_kept member owner = owner

abbrev pub resolved_replace :
    String → Kind → String → String → Option Entry → String → Result Resolution
resolved_replace id kind summary value none principal = failed entry_not_found
resolved_replace id kind summary value (some existing) principal =
    if can_access existing principal
    then with_confirmation (
        replace id (record {
          kind = kind;
          summary = summary;
          scope = existing.scope;
          owner = owner_kept existing.scope existing.owner;
          value = value;
          lifecycle = none;
        }))
    else failed entry_forbidden

abbrev pub resolved_delete : String → Option Entry → String → Result Resolution
resolved_delete id none principal = failed entry_not_found
resolved_delete id (some existing) principal =
    if can_access existing principal then with_confirmation (delete id) else failed entry_forbidden

abbrev pub resolved : String → Draft → Document → String → Result Resolution
resolved fresh (creating kind summary scope value) d principal =
    succeeded (resolved_create fresh kind summary scope value d principal)
resolved fresh clearing d principal = with_confirmation clear
resolved fresh (replacing id kind summary value) d principal =
    resolved_replace id kind summary value (entry_at id d) principal
resolved fresh (deleting id) d principal = resolved_delete id (entry_at id d) principal

-- `based_on` is the draft's `basedOnRevision`, and `fresh` what the generator gives.
unfoldable pub resolve_mutation :
    (Document → String) → String → String → Draft → Document → String → Result Resolution
resolve_mutation revision fresh based_on draft d principal =
    if str_eq based_on (revision d)
    then resolved fresh draft d principal
    else failed revision_conflict
