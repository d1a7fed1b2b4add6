-- ===== src/Mutation/Commands/Replay.antt =====
-- When a command is registered again, and what keeps commands apart.
use plus_one.Common.{
  same_option_refl, ◌∙◌, ◌≡◌, refl, true, false, Option, some, any, arith, eq_iff, List, [], ◌∷◌,
  Option-cases, inl, inr, ◌⊎◌, ap, String,
}
use plus_one.Common.Errors.{Thrown}
use plus_one.Common.Effects.{done, threw, Outcome}
use plus_one.Mutation.Commands.{
  Books, Command, CheckedCommand, same_envelope, validate_replay, new_command, find_by_idempotency,
  register, insert_command, recover, has_idempotency_key, has_public_id, has_proposal,
  joined_confirmation, stored_command,
}

same_envelope_refl : (input : CheckedCommand) → same_envelope (new_command input) input ≡ true
unfolding same_envelope
same_envelope_refl input = ground (
  arith,
  same_option_refl input.confirmation_id,
  eq_iff input.command_id input.command_id,
  eq_iff input.task_id input.task_id,
  eq_iff input.command_type input.command_type,
  eq_iff input.checked_proposal_id input.checked_proposal_id,
  eq_iff input.checked_proposal_hash input.checked_proposal_hash,
  eq_iff input.schema_name input.schema_name,
  eq_iff input.payload input.payload,
)

-- What a command that `register` returned is: stored under the key, with the same envelope.
abbrev IsRegistered : CheckedCommand → Command → Books → Type 0
IsRegistered input c after =
    (find_by_idempotency input.household_id input.idempotency_key after ≡ some c)
    × (same_envelope c input ≡ true)

validate-IsRegistered :
    (input : CheckedCommand) (found c : Command) (books after : Books)
    → find_by_idempotency input.household_id input.idempotency_key books ≡ some found
    → validate_replay found input books ≡ done c after
    → IsRegistered input c after × (after ≡ books)
validate-IsRegistered input found c books after f e = ground arith

recover-IsRegistered :
    (input : CheckedCommand) (e : Thrown) (c : Command) (books after : Books)
    → recover input e books ≡ done c after
    → IsRegistered input c after × (after ≡ books)
unfolding recover
recover-IsRegistered input e c books after h =
    elim (Option-cases (find_by_idempotency input.household_id input.idempotency_key books)) [
      | inl missing ↦ ground arith
      | inr (found, f) ↦ validate-IsRegistered input found c books after f (ground arith)
    ]

-- The confirmation that the command names, if any, is a recorded one of its household.
abbrev pub IsConfirmed : CheckedCommand → Books → Type 0
IsConfirmed input books =
    joined_confirmation input.household_id input.confirmation_id books.confirmations
    ≡ input.confirmation_id

-- No two commands of a household share an idempotency key or an exact proposal, and no two at all
-- share their identifier.
abbrev pub IsDistinct : List Command → Type 0
IsDistinct [] = Unit {0}
IsDistinct (c ∷ cs) =
    (any (has_public_id c.envelope.command_id) cs ≡ false)
    × (any (has_idempotency_key c.envelope.household_id c.envelope.idempotency_key) cs ≡ false)
    × (any (has_proposal c.envelope) cs ≡ false)
    × IsDistinct cs

module _ (rejects : CheckedCommand → Books → Option Thrown) where
  insert-inv :
      (input : CheckedCommand) (c : Command) (books after : Books)
      → insert_command rejects input books ≡ done c after
      → (c ≡ new_command input)
        × (after.commands ≡ stored_command input books ∷ books.commands)
        × (any (has_public_id input.command_id) books.commands ≡ false)
        × (any (has_idempotency_key input.household_id input.idempotency_key) books.commands
            ≡ false)
        × (any (has_proposal input) books.commands ≡ false)
  unfolding insert_command
  insert-inv input c books after e = elim (Option-cases (rejects input books)) [
    | inl fine ↦ ground arith
    | inr (x, bad) ↦ ground arith
  ]

  insert_throws :
      (input : CheckedCommand) (books after : Books) (e : Thrown)
      → insert_command rejects input books ≡ threw e after
      → after ≡ books
  unfolding insert_command
  insert_throws input books after e h = elim (Option-cases (rejects input books)) [
    | inl fine ↦ ground arith
    | inr (x, bad) ↦ ground arith
  ]

  insert-IsRegistered :
      (input : CheckedCommand) (c : Command) (books after : Books)
      → IsConfirmed input books
      → insert_command rejects input books ≡ done c after
      → IsRegistered input c after
  insert-IsRegistered input c books after known e =
      let (same, grown, _, _, _) = insert-inv input c books after e in
      let stored : stored_command input books ≡ new_command input =
        ap (λ (o : Option String). new_command (record input { confirmation_id = o })) known in
      (
        ground (
          arith,
          eq_iff input.household_id input.household_id,
          eq_iff input.idempotency_key input.idempotency_key,
        ),
        rw same (same_envelope_refl input),
      )

  -- How `register` returns: an earlier command, found at once or after the INSERT failed, or the
  -- new one.
  register-cases :
      (others : Books → Books) (input : CheckedCommand) (c : Command) (books after : Books)
      → register rejects others input books ≡ done c after
      → (IsRegistered input c after × ((after ≡ books) ⊎ (after ≡ others books)))
        ⊎ (insert_command rejects input (others books) ≡ done c after)
  unfolding register
  register-cases others input c books after h =
      elim (Option-cases (find_by_idempotency input.household_id input.idempotency_key books)) [
        | inl missing ↦
            inserted (insert_command rejects input (others books)) refl
              (rw (missing, register) at h)
        | inr (found, f) ↦
            let (r, same) =
              validate-IsRegistered input found c books after f (rw (f, register) at h) in
            inl (r, inl same)
      ]
    where
      inserted :
          (o : Outcome Books Command)
          → insert_command rejects input (others books) ≡ o
          → elim o [ done c after ↦ done c after | threw e after ↦ recover input e after ]
            ≡ done c after
          → (IsRegistered input c after × ((after ≡ books) ⊎ (after ≡ others books)))
            ⊎ (insert_command rejects input (others books) ≡ done c after)
      inserted (done d t) e g = inr cc
      inserted (threw x t) e g =
          let (r, same) = recover-IsRegistered input x c t after g in
          inl (r, inr (same ∙ insert_throws input (others books) t x e))

  -- Registering is idempotent: once a call returned a command, a repeated call with the same
  -- envelope returns that command and changes nothing, whatever other processes do during the calls,
  -- where the confirmation that the command names, if any, is recorded for its household when the
  -- first call inserts.
  pub register-replay :
      (others later : Books → Books) (input : CheckedCommand) (c : Command) (books after : Books)
      → IsConfirmed input (others books)
      → register rejects others input books ≡ done c after
      → register rejects later input after ≡ done c after
  unfolding register
  register-replay others later input c books after known h =
      let (found, same) = registered in rw (found, register) (rw same refl)
    where
      registered : IsRegistered input c after
      registered = elim (register-cases others input c books after h) [
        | inl (r, _) ↦ r
        | inr e ↦ insert-IsRegistered input c (others books) after known e
      ]

  -- Registering keeps commands apart, if the other processes do: no two commands share their
  -- identifier, nor, in one household, an idempotency key or an exact checked proposal.
  register-IsDistinct :
      (others : Books → Books) (input : CheckedCommand) (c : Command) (books after : Books)
      → IsDistinct books.commands
      → IsDistinct (others books).commands
      → register rejects others input books ≡ done c after
      → IsDistinct after.commands
  register-IsDistinct others input c books after d e h =
      elim (register-cases others input c books after h) [
        | inl (_, inl same) ↦ rw same d
        | inl (_, inr same) ↦ rw same e
        | inr inserted ↦
            let (_, grown, id, key, proposal) = insert-inv input c (others books) after inserted in
            rw grown (id, key, proposal, e)
      ]
