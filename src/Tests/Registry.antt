-- ===== src/Tests/Registry.antt =====
-- A registry of one command.
use plus_one.Common.{◌≡◌, refl, true, String, some, [], ◌∷◌, any}
use plus_one.Mutation.Registry.{
  Handler, Request, Confirmation, idempotency_receipt, balances, is_idempotency_receipt,
  add_handler, add_all, check_handler, prepare,
}
use plus_one.Mutation.Registry.Prepared.{Suits, prepare-Suits}

abbrev journal : Handler String
journal = record {
  command_type = "accounting.post_journal";
  schema_name = "journal";
  schema_version = 1;
  confirmation = Confirmation.required;
  required_checks = balances ∷ idempotency_receipt ∷ [];
  parse = λ text. some text;
}

abbrev confirmed : Request
confirmed = record {
  command_type = "accounting.post_journal";
  schema_name = "journal";
  schema_version = 1;
  payload = "{}";
  confirmation_id = some "ok";
}

prepare-Suits_example :
    Suits journal confirmed
    × (journal.parse confirmed.payload ≡ some "{}")
    × (any is_idempotency_receipt journal.required_checks ≡ true)
unfolding add_all add_handler prepare check_handler
prepare-Suits_example =
    prepare-Suits (journal ∷ []) (journal ∷ []) (journal ∷ []) confirmed journal "{}" refl refl
