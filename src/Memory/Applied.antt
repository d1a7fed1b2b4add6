-- ===== src/Memory/Applied.antt =====
-- apps/engine/src/memory/working-memory-document.ts: what holds where a mutation was applied.
use plus_one.Common.{
  ℕ, String, Bool, not, Option, none, some, ◌≡◌, refl, true, false, if◌then◌else◌, same_option,
  ◌||◌, is_some,
}
use plus_one.Memory.{
  Entry, Document, entry_at, with_entry, without_entry, Mutation, create, replace, delete,
  succeeded, failed, Result, mutation_invalid, entry_forbidden, write_rejected,
}
use plus_one.Memory.Document.{
  apply_mutation, applied, applied_replace, applied_delete, can_access, same_scope,
  with_mutation_lifecycle, is_mutation, is_document,
}

-- The tests of a replacement, of a deletion and of a creation, in their order.
replace_tests :
    {A : Type 0} (accessible scope owner fits : Bool) (x y : A)
    → (if not accessible
        then failed entry_forbidden
        else if not scope || not owner
        then failed entry_forbidden
        else if fits
        then succeeded x
        else failed write_rejected)
      ≡ succeeded y
    → (accessible ≡ true) × (scope ≡ true) × (owner ≡ true) × (y ≡ x)
replace_tests false scope owner fits x y h = absurd (cc)
replace_tests true false owner fits x y h = absurd (cc)
replace_tests true true false fits x y h = absurd (cc)
replace_tests true true true false x y h = absurd (cc)
replace_tests true true true true x y h = (refl, refl, refl, cc)

delete_tests :
    {A : Type 0} (accessible fits : Bool) (x y : A)
    → (if not accessible
        then failed entry_forbidden
        else if fits
        then succeeded x
        else failed write_rejected)
      ≡ succeeded y
    → (accessible ≡ true) × (y ≡ x)
delete_tests false fits x y h = absurd (cc)
delete_tests true false x y h = absurd (cc)
delete_tests true true x y h = (refl, cc)

create_tests :
    {A : Type 0} (old : Option Entry) (accessible fits : Bool) (x y : A)
    → (if is_some old
        then failed write_rejected
        else if not accessible
        then failed entry_forbidden
        else if fits
        then succeeded x
        else failed write_rejected)
      ≡ succeeded y
    → (old ≡ none) × (accessible ≡ true) × (y ≡ x)
create_tests (some old) accessible fits x y h = absurd (cc)
create_tests none accessible fits x y h =
    let (a, e) = delete_tests accessible fits x y h in (refl, a, e)

of_mutation :
    {A : Type 0} (b : Bool) (r : Result A) (y : A)
    → (if b then r else failed mutation_invalid) ≡ succeeded y
    → r ≡ succeeded y
of_mutation true r y h = h
of_mutation false r y h = absurd (cc)

module _ (size : Document → ℕ) (d d' : Document) (principal : String) (now : ℕ) where
  apply_mutation-applied :
      (m : Mutation)
      → apply_mutation size m d principal now ≡ succeeded d'
      → applied size m d principal now ≡ succeeded d'
  unfolding apply_mutation
  apply_mutation-applied m h =
      of_mutation (is_mutation size m) (applied size m d principal now) d' h

  pub create-inv :
      (id : String) (e : Entry)
      → apply_mutation size (create id e) d principal now ≡ succeeded d'
      → (entry_at id d ≡ none)
        × (can_access e principal ≡ true)
        × (d' ≡ with_entry id (with_mutation_lifecycle e none now) d)
  create-inv id e h =
      create_tests (entry_at id d) (can_access e principal)
        (is_document size (with_entry id (with_mutation_lifecycle e none now) d))
        (with_entry id (with_mutation_lifecycle e none now) d) d'
        (apply_mutation-applied (create id e) h)

  replace-old :
      (id : String) (e : Entry) (old : Option Entry)
      → applied_replace size id e old d principal now ≡ succeeded d'
      → (x : Entry) × (old ≡ some x)
        × (can_access x principal ≡ true)
        × (same_scope x.scope e.scope ≡ true)
        × (same_option x.owner e.owner ≡ true)
        × (d' ≡ with_entry id (with_mutation_lifecycle e x.lifecycle now) d)
  replace-old id e none h = absurd (cc)
  replace-old id e (some x) h =
      let new = with_entry id (with_mutation_lifecycle e x.lifecycle now) d in
      let (a, s, o, same) =
        replace_tests (can_access x principal) (same_scope x.scope e.scope)
          (same_option x.owner e.owner) (is_document size new) new d' h in
      (x, refl, a, s, o, same)

  pub replace-inv :
      (id : String) (e : Entry)
      → apply_mutation size (replace id e) d principal now ≡ succeeded d'
      → (x : Entry) × (entry_at id d ≡ some x)
        × (can_access x principal ≡ true)
        × (same_scope x.scope e.scope ≡ true)
        × (same_option x.owner e.owner ≡ true)
        × (d' ≡ with_entry id (with_mutation_lifecycle e x.lifecycle now) d)
  replace-inv id e h = replace-old id e (entry_at id d) (apply_mutation-applied (replace id e) h)

  delete-old :
      (id : String) (old : Option Entry)
      → applied_delete size id old d principal ≡ succeeded d'
      → (x : Entry) × (old ≡ some x) × (can_access x principal ≡ true) × (d' ≡ without_entry id d)
  delete-old id none h = absurd (cc)
  delete-old id (some x) h =
      let (a, same) =
        delete_tests (can_access x principal) (is_document size (without_entry id d))
          (without_entry id d) d' h in
      (x, refl, a, same)

  pub delete-inv :
      (id : String)
      → apply_mutation size (delete id) d principal now ≡ succeeded d'
      → (x : Entry) × (entry_at id d ≡ some x)
        × (can_access x principal ≡ true)
        × (d' ≡ without_entry id d)
  delete-inv id h = delete-old id (entry_at id d) (apply_mutation-applied (delete id) h)
