-- ===== src/Gateway/Channel/Inbound.antt =====
-- packages/runtime/src/gateway/channel-gateway.ts: a message leads to one turn at most.
use plus_one.Common.{
  ◌⊎◌, ℕ, String, Bool, List, [], ◌∷◌, Option, none, some, ◌≡◌, ◌≤◌, ◌+◌, refl, arith, count, any,
  if◌then◌else◌, true, false, str_eq, count-append, Bool-cases, inl, inr, eq_iff, ◌||◌, ◌∙◌,
}
use plus_one.Common.Errors.{Thrown, failure, validation_rejected, never}
use plus_one.Common.Effects.{threw, after, done, Outcome}
use plus_one.Gateway.Turns.{
  Registry, Event, submits, finishes, calls_back, shuts_down, happen, finish_work, call_next,
  new_registry,
}
use plus_one.Gateway.Turns.Accepted.{
  submit-accepted, finish_work-accepted, call_next-accepted, on_line-accepted,
}
use plus_one.Gateway.Channel.{GatewayResult}
use plus_one.Gateway.Channel.Messages.{
  Message, same_message, Gateway, Step, arrives, goes_on, take_step, take_steps, handle_inbound,
  record_inbound_message, submit_turn, progress, after_record,
}

-- How often a message was accepted in a conversation.
abbrev pub times_accepted : Message → String → Gateway → ℕ
times_accepted m k g = count (same_message m) (g.turns.lines k).accepted

abbrev number : Bool → ℕ
number b = if b then 1 else 0

-- A message is accepted once at most, and only if it is recorded.
abbrev IsOnce : Gateway → Type 0
IsOnce g =
    (m : Message) (k : String) → times_accepted m k g ≤ number (any (same_message m) g.messages)

progress-accepted :
    (e : Event Message) (r : Registry Message) (j : String)
    → ((progress e r).lines j).accepted ≡ (r.lines j).accepted
unfolding happen
progress-accepted (submits k m) r j = refl
progress-accepted (finishes k n) r j =
    on_line-accepted k (finish_work n) r (finish_work-accepted n) j
progress-accepted (calls_back k) r j = on_line-accepted k call_next r call_next-accepted j
progress-accepted shuts_down r j = refl

-- A submission accepts a message at most once more, and only its own.
submits-count :
    (w m : Message) (k j : String) (r : Registry Message)
    → count (same_message m) ((happen (submits k w) r).lines j).accepted
      ≤ count (same_message m) (r.lines j).accepted + number (same_message m w)
unfolding happen
submits-count w m k j r = elim (Bool-cases r.accepting) [
  | inr closed ↦ rw closed (omega arith)
  | inl accepts ↦ elim (Bool-cases (str_eq k j)) [
    | inr other ↦ rw (accepts, other) (omega arith)
    | inl here ↦
        rw (accepts, here)
          (rw (submit-accepted w (r.lines j))
            (ground (arith, count-append (same_message m) (r.lines j).accepted (w ∷ []))))
  ]
]

same_message-congr :
    (m w x : Message) → same_message m w ≡ true → same_message m x ≡ same_message w x
same_message-congr m w x h = ground (
  arith,
  eq_iff m.household_id w.household_id,
  eq_iff m.channel w.channel,
  eq_iff m.external_message_id w.external_message_id,
)

any-same :
    (m w : Message) (xs : List Message)
    → same_message m w ≡ true
    → any (same_message m) xs ≡ any (same_message w) xs
any-same m w [] h = refl
any-same m w (x ∷ xs) h = rw (same_message-congr m w x h, any-same m w xs h) refl

number-of_new :
    (n : ℕ) (same before : Bool)
    → (same ≡ true → before ≡ false)
    → n ≤ number before
    → n + number same ≤ number (same || before)
number-of_new n true before fresh h = ground (arith, fresh refl)
number-of_new n false before fresh h = omega (arith, h)

-- How the recording of a message can end.
record_inbound_message-cases :
    (has_conversation : Bool) (w : Message) (g : Gateway)
    → ((record_inbound_message has_conversation w g
          ≡ done true (record g { messages = w ∷ g.messages }))
        × (any (same_message w) g.messages ≡ false))
      ⊎ ((record_inbound_message has_conversation w g ≡ done false g)
          ⊎ ((e : Thrown) × (record_inbound_message has_conversation w g ≡ threw e g)))
unfolding record_inbound_message
record_inbound_message-cases has_conversation w g =
    elim (Bool-cases (any (same_message w) g.messages)) [
      | inl known ↦ inr (inl (ground arith))
      | inr new ↦ elim (Bool-cases has_conversation) [
        | inl there ↦ inl (ground arith, new)
        | inr missing ↦ inr (
            inr (
              failure validation_rejected "channel_conversation_not_found" never false,
              ground arith,
            ))
      ]
    ]

accepted-IsOnce :
    (w : Message) (g : Gateway)
    → any (same_message w) g.messages ≡ false
    → IsOnce g
    → IsOnce (after (submit_turn w (record g { messages = w ∷ g.messages })))
unfolding submit_turn
accepted-IsOnce w g new o m k = omega (
  arith,
  submits-count w m w.conversation_id k g.turns,
  number-of_new (times_accepted m k g) (same_message m w) (any (same_message m) g.messages)
      (λ h. any-same m w g.messages h ∙ new) (o m k),
)

-- What the recording must lead to.
abbrev Leads : Message → Outcome Gateway Bool → Type 0
Leads w (done true g) = IsOnce (after (submit_turn w g))
Leads w (done false g) = IsOnce g
Leads w (threw e g) = IsOnce g

record_inbound_message-Leads :
    (has_conversation : Bool) (w : Message) (g : Gateway)
    → IsOnce g
    → Leads w (record_inbound_message has_conversation w g)
record_inbound_message-Leads has_conversation w g o =
    elim (record_inbound_message-cases has_conversation w g) [
      | inl (recorded, new) ↦ rw recorded (accepted-IsOnce w g new o)
      | inr (inl known) ↦ rw known o
      | inr (inr (e, refused)) ↦ rw refused o
    ]

after_record-IsOnce :
    (w : Message) (r : Outcome Gateway Bool)
    → Leads w r
    → IsOnce (
        after (elim r as (λ x. Outcome Gateway (Option GatewayResult)) [
          | done b g ↦ after_record w b g
          | threw e g ↦ threw e g
        ]))
after_record-IsOnce w (done true g) l = l
after_record-IsOnce w (done false g) l = l
after_record-IsOnce w (threw e g) l = l

arrives-IsOnce :
    (command : Option String) (has_conversation : Bool) (w : Message) (g : Gateway)
    → IsOnce g
    → IsOnce (after (handle_inbound command has_conversation w g))
unfolding handle_inbound
arrives-IsOnce (some body) has_conversation w g o = o
arrives-IsOnce none has_conversation w g o =
    after_record-IsOnce w (record_inbound_message has_conversation w g)
      (record_inbound_message-Leads has_conversation w g o)

take_step-IsOnce : (s : Step) (g : Gateway) → IsOnce g → IsOnce (take_step s g)
unfolding take_step
take_step-IsOnce (arrives command has_conversation w) g o m k =
    arrives-IsOnce command has_conversation w g o m k
take_step-IsOnce (goes_on e) g o m k = rw (progress-accepted e g.turns k) (o m k)

take_steps-IsOnce : (ss : List Step) (g : Gateway) → IsOnce g → IsOnce (take_steps ss g)
unfolding take_steps
take_steps-IsOnce [] g o = o
take_steps-IsOnce (s ∷ ss) g o = take_steps-IsOnce ss (take_step s g) (take_step-IsOnce s g o)

abbrev pub new_gateway : Gateway
new_gateway = record { messages = []; turns = new_registry }

number-le : (b : Bool) → number b ≤ 1
number-le b = ground arith

-- Whatever messages come in, as often as they are sent and in any order with the turns, a message,
-- known by its household, channel and external identifier, is accepted as a turn of a conversation
-- at most once.
pub take_steps-accepts_once :
    (ss : List Step) (m : Message) (k : String) → times_accepted m k (take_steps ss new_gateway) ≤ 1
take_steps-accepts_once ss m k = omega (
  arith,
  take_steps-IsOnce ss new_gateway (λ w j. omega arith) m k,
  number-le (any (same_message m) (take_steps ss new_gateway).messages),
)
