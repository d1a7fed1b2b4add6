-- ===== src/Mutation/Registry/Prepared.antt =====
-- What a prepared command can rely on.
use plus_one.Common.{
  Bool, not, is_some, ◌≡◌, true, some, List, [], ◌∷◌, any, find, find-hit, find-All, All, arith,
  eq_iff, Option-cases, inl, inr, Option, String,
}
use plus_one.Common.Effects.{done}
use plus_one.Mutation.Registry.{
  optional, Handler, Request, has_type, is_idempotency_receipt, add_handler, add_all, prepare,
  check_handler, required, forbidden, Confirmation,
}

-- Which confirmation references a handler takes.
abbrev pub confirms : Confirmation → Option String → Bool
confirms required id = is_some id
confirms optional id = true
confirms forbidden id = not (is_some id)

module _ {I : Type 0} where
  -- Every handler's read-back checks the idempotency receipt.
  abbrev ReadsReceipt : Handler I → Type 0
  ReadsReceipt handler = any is_idempotency_receipt handler.required_checks ≡ true

  add_all-ReadsReceipt :
      (hs registry final : List (Handler I))
      → All ReadsReceipt registry
      → add_all hs registry ≡ done tt final
      → All ReadsReceipt final
  unfolding add_all add_handler
  add_all-ReadsReceipt [] registry final a e = ground arith
  add_all-ReadsReceipt (h ∷ hs) registry final a e =
      let ih = add_all-ReadsReceipt hs (h ∷ registry) final in ground arith

  -- The handler suits the request: its type, its schema and its confirmation rule.
  abbrev pub Suits : Handler I → Request → Type 0
  Suits handler request =
      (handler.command_type ≡ request.command_type)
      × (handler.schema_name ≡ request.schema_name)
      × (handler.schema_version ≡ request.schema_version)
      × (confirms handler.confirmation request.confirmation_id ≡ true)

  check_handler-Suits :
      (request : Request) (handler chosen : Handler I) (input : I)
      (registry after : List (Handler I))
      → handler.command_type ≡ request.command_type
      → check_handler request handler registry ≡ done (chosen, input) after
      → (chosen ≡ handler) × Suits handler request × (handler.parse request.payload ≡ some input)
  unfolding check_handler
  check_handler-Suits request handler chosen input registry after t e = (
    ground arith,
    (t, ground (arith, eq_iff handler.schema_name request.schema_name), ground arith, ground arith),
    ground arith,
  )

  -- Of a registry that the constructor accepts: `prepare` returns a handler only for a request
  -- whose type, schema and confirmation it takes, with the input that it parsed, and the
  -- read-back of that handler checks the idempotency receipt.
  pub prepare-Suits :
      (hs registry after : List (Handler I)) (request : Request) (handler : Handler I) (input : I)
      → add_all hs [] ≡ done tt registry
      → prepare request registry ≡ done (handler, input) after
      → Suits handler request
        × (handler.parse request.payload ≡ some input)
        × (any is_idempotency_receipt handler.required_checks ≡ true)
  unfolding prepare
  prepare-Suits hs registry after request handler input built e =
      let all_read = add_all-ReadsReceipt hs [] registry tt built in
      elim (Option-cases (find (has_type request.command_type) registry)) [
        | inl missing ↦ ground arith
        | inr (h, found) ↦
            let hit = find-hit (has_type request.command_type) registry h found in
            let reads =
              find-All ReadsReceipt (has_type request.command_type) registry h all_read found in
            let (same, suits, input_of) =
              check_handler-Suits request h handler input registry after
                (ground (arith, eq_iff h.command_type request.command_type)) (ground arith) in
            rw same (suits, input_of, reads)
      ]
