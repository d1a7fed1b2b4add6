-- ===== src/Memory.antt =====
-- packages/contracts/src/working-memory.ts: the flexible working memory of a household, its entries
-- and the mutations of them. A value is known by its canonical JSON text, and the schemas of
-- identifiers, summaries and values are taken as passed.
pub mod Document
mod Entries
mod Applied
pub mod Access
pub mod Readback
pub mod Resolved
use plus_one.Common.{
  ℕ, String, Bool, List, [], ◌∷◌, Option, none, some, str_eq, if◌then◌else◌, true, false, any, not,
  ◌&&◌, ◌||◌, leb, length, all, is_some,
}

pub data Kind : Type 0 where
  goal saving_preference communication_preference convention member_context other : Kind

pub data Scope : Type 0 where
  household member : Scope

pub record Lifecycle : Type 0 where
  pub created_at : ℕ
  pub updated_at : ℕ
  pub last_reviewed_at : Option ℕ
  pub expires_at : Option ℕ

pub record Entry : Type 0 where
  pub kind : Kind
  pub summary : String
  pub scope : Scope
  pub owner : Option String
  pub value : String
  pub lifecycle : Option Lifecycle

-- The object of the entries, by their identifiers.
abbrev pub Document : Type 0
Document = List (String × Entry)

abbrev pub entry_at : String → Document → Option Entry
entry_at id [] = none
entry_at id ((k, e) ∷ d) = if str_eq k id then some e else entry_at id d

-- `entries[id] = entry`.
abbrev pub with_entry : String → Entry → Document → Document
with_entry id e [] = (id, e) ∷ []
with_entry id e ((k, x) ∷ d) = if str_eq k id then (k, e) ∷ d else (k, x) ∷ with_entry id e d

-- `delete entries[id]`.
abbrev pub without_entry : String → Document → Document
without_entry id [] = []
without_entry id ((k, x) ∷ d) =
    let rest = without_entry id d in if str_eq k id then rest else (k, x) ∷ rest

-- The refinement of WorkingMemoryEntrySchema: exactly the entries of a member have an owner.
abbrev pub is_owned : Entry → Bool
is_owned e = elim e.scope [ household ↦ not (is_some e.owner) | member ↦ is_some e.owner ]

-- A resolved mutation.
pub data Mutation : Type 0 where
  create : String → Entry → Mutation
  replace : String → Entry → Mutation
  delete : String → Mutation
  clear : Mutation

-- WorkingMemoryMutationDraftSchema, without `basedOnRevision`.
pub data Draft : Type 0 where
  creating : Kind → String → Scope → String → Draft
  replacing : String → Kind → String → String → Draft
  deleting : String → Draft
  clearing : Draft

-- The codes of the failed results.
pub data Refusal : Type 0 where
  mutation_invalid revision_conflict entry_not_found entry_forbidden write_rejected : Refusal

pub data Result (A : Type 0) : Type 0 where
  succeeded : A → Result A
  failed : Refusal → Result A
