-- ===== src/Memory/Access.antt =====
-- apps/engine/src/memory/working-memory-document.ts: whose entries a mutation can touch.
use plus_one.Common.{
  String, Bool, some, ◌≡◌, ◌↔◌, true, false, eq_iff, arith, ℕ, Option, none, refl, same_option, ◌∙◌,
  ap,
}
use plus_one.Memory.{
  Entry, Document, entry_at, with_entry, without_entry, Mutation, clear, create, succeeded, delete,
  replace,
}
use plus_one.Memory.Entries.{entry_at-with_entry, entry_at-without_entry}
use plus_one.Memory.Applied.{create-inv, replace-inv, delete-inv}
use plus_one.Memory.Document.{can_access, apply_mutation, with_mutation_lifecycle, same_scope}

abbrev pub is_clear : Mutation → Bool
is_clear clear = true
is_clear _ = false

-- The same entries that the principal cannot access.
abbrev pub SameForOthers : String → Document → Document → Type 0
SameForOthers principal d d' =
    (id : String) (e : Entry)
    → can_access e principal ≡ false
    → (entry_at id d ≡ some e) ↔ (entry_at id d' ≡ some e)

abbrev IsFree : String → String → Document → Type 0
IsFree principal id d = (x : Entry) → entry_at id d ≡ some x → can_access x principal ≡ true

with_entry-others :
    (principal id : String) (new : Entry) (d : Document)
    → can_access new principal ≡ true
    → IsFree principal id d
    → SameForOthers principal d (with_entry id new d)
with_entry-others principal id new d mine free j e hidden =
    rw (entry_at-with_entry id j new d) (ground (arith, eq_iff id j, free e))

without_entry-others :
    (principal id : String) (d : Document)
    → IsFree principal id d
    → SameForOthers principal d (without_entry id d)
without_entry-others principal id d free j e hidden =
    rw (entry_at-without_entry id j d) (ground (arith, eq_iff id j, free e))

same_option-eq : (a b : Option String) → same_option a b ≡ true → a ≡ b
same_option-eq none none h = refl
same_option-eq none (some b) h = cc
same_option-eq (some a) none h = cc
same_option-eq (some a) (some b) h = ap some ((eq_iff a b).0 h)

can_access-same :
    (a b : Entry) (principal : String)
    → same_scope a.scope b.scope ≡ true
    → a.owner ≡ b.owner
    → can_access b principal ≡ can_access a principal
can_access-same a b principal h e = ground arith

module _ (size : Document → ℕ) (d d' : Document) (principal : String) (now : ℕ) where
  -- A mutation that a principal applies, unless it clears the document, leaves the entries that the
  -- principal cannot access as they are: none of them is changed, removed or added.
  pub apply_mutation-others :
      (m : Mutation)
      → is_clear m ≡ false
      → apply_mutation size m d principal now ≡ succeeded d'
      → SameForOthers principal d d'
  apply_mutation-others (create id e) c h =
      let (absent, mine, new) = create-inv size d d' principal now id e h in
      rw new
        (with_entry-others principal id (with_mutation_lifecycle e none now) d mine (λ x found. cc))
  apply_mutation-others (replace id e) c h =
      let (old, found, mine, scope, owner, new) = replace-inv size d d' principal now id e h in
      let still : can_access e principal ≡ true =
        can_access-same old e principal scope (same_option-eq old.owner e.owner owner) ∙ mine in
      rw new (
        with_entry-others principal id (with_mutation_lifecycle e old.lifecycle now) d still
          (λ x here. let same : x ≡ old = cc in rw same mine))
  apply_mutation-others (delete id) c h =
      let (old, found, mine, new) = delete-inv size d d' principal now id h in
      rw new
        (without_entry-others principal id d (λ x here. let same : x ≡ old = cc in rw same mine))
  apply_mutation-others clear c h = absurd (cc)
