-- ===== src/Memory/Entries.antt =====
-- packages/contracts/src/working-memory.ts: what is found in a document after an entry was set or
-- deleted.
use plus_one.Common.{
  String, [], ◌∷◌, none, some, ◌≡◌, refl, str_eq, eq_iff, if◌then◌else◌, arith, true,
}
use plus_one.Memory.Document.{same_scope}
use plus_one.Memory.{Scope, household, member, Entry, Document, entry_at, with_entry, without_entry}

pub entry_at-with_entry :
    (i j : String) (e : Entry) (d : Document)
    → entry_at j (with_entry i e d) ≡ (if str_eq i j then some e else entry_at j d)
entry_at-with_entry i j e [] = refl
entry_at-with_entry i j e ((k, x) ∷ d) =
    ground (arith, eq_iff i j, eq_iff k i, eq_iff k j, entry_at-with_entry i j e d)

pub entry_at-without_entry :
    (i j : String) (d : Document)
    → entry_at j (without_entry i d) ≡ (if str_eq i j then none else entry_at j d)
entry_at-without_entry i j [] = ground arith
entry_at-without_entry i j ((k, x) ∷ d) =
    ground (arith, eq_iff i j, eq_iff k i, eq_iff k j, entry_at-without_entry i j d)

pub same_scope_refl : (s : Scope) → same_scope s s ≡ true
same_scope_refl household = refl
same_scope_refl member = refl
