-- ===== src/Lib.antt =====
-- plus-one: a household accounting assistant whose agent teams propose, check and commit changes.
-- This library models the parts of it that decide what may happen to a task and to the books.
--
-- Parts, and the files that model them:
--   * Task, Task/Lifecycle, Task/Resume: the task state machine (packages/runtime/src/
--     state-machine.ts, packages/contracts/src/runtime.ts) and the classification of tasks that
--     were left open (packages/runtime/src/resume.ts).
--   * Storage, Storage/Rows: the rows of the operations schema that the ledger, the artifact
--     repository and the verification runtime read and write, as one record `Db`; each table is a
--     list, newest row first.
--   * Artifacts: createArtifactEnvelope and ArtifactStore (packages/runtime/src/artifacts/
--     artifact-store.ts) over PostgresArtifactRepository (packages/database/src/repositories/
--     operations/artifacts.ts). The hash of a payload is a parameter.
--   * Ledger, Ledger/Verdicts, Ledger/Log: PostgresVerificationLedgerRepository (packages/database/
--     src/repositories/operations/verification-ledger.ts), but for runs and attempts.
--   * Policy: RuntimePolicyRegistry (packages/runtime/src/runtime-policy.ts).
--   * Verification, Verification/Keeps, Verification/Audit: VerificationRuntime (packages/runtime/
--     src/verification-runtime.ts), which calls the ledger, the artifact store and the registry.
--   * Database: the normalisation of database errors (packages/database/src/errors.ts and
--     repositories/operations/mutation-errors.ts).
--   * Mutation/Runner: SerializableMutationRunner (packages/mutations/src/serializable-runner.ts),
--     which executes a checked command in a serializable transaction.
--   * Mutation/Registry: CommandRegistry (packages/mutations/src/command-registry.ts), the
--     allowlist of commands with their handlers.
--   * Mutation/Commands, Mutation/Commands/Moves: PostgresMutationCommandRepository (packages/
--     database/src/repositories/operations/mutation-command-repository.ts), but for confirmations,
--     readbacks and receipts. The triggers of the command table are a parameter.
--   * Mutation/Resolver: CommandStateResolver (packages/mutations/src/command-state-resolver.ts),
--     over the command repository and the ledger.
--   * Mutation/Executor, with Counts, Stages, Once and Verified: CheckedMutationExecutor.execute
--     (packages/mutations/src/checked-mutation-executor.ts) over the interface of what it calls;
--     Mutation/Readback is its performReadback with the failures of required checks.
--   * Teams, with Failures, Outputs and Executor: TeamExecutor.executeWorkCell (packages/runtime/
--     src/execution/team-executor.ts) with execution-failure.ts beside it. A run composes the calls
--     of Verification; a session is the database, the roles that were asked and the agents' world.
--     The two loops count down the attempts that are left, from the code's limit.
--   * Memory, with Entries, Document and Applied: the working memory of a household (apps/engine/
--     src/memory/working-memory-document.ts, packages/contracts/src/working-memory.ts).
--   * Gateway/Turns: ActiveTurnRegistry (packages/runtime/src/gateway/active-turn-registry.ts), as
--     submissions, works that settle and callbacks in the code's order; Phases and
--     Orderly are about them.
--     Gateway/Channel: ChannelGateway (channel-gateway.ts beside it), a
--     turn and, in Messages, an inbound message that is recorded and submitted.
--   * Accounting/Amounts, with Digits, Laws and Order: decimal strings (packages/accounting/src/
--     amounts.ts); Accounting/Corrections and Reversal: buildExactReversalPostings (packages/
--     accounting/src/posting/corrections.ts).
--   * Delivery/Handler: FinalDeliveryHandler (packages/runtime/src/delivery/final-delivery-handler.ts)
--     over Delivery/Store, the outbound deliveries of packages/database/src/repositories/operations/
--     delivery-scheduler.ts, and Delivery/Failures, the failures of packages/runtime/src/gateway/
--     send-result.ts. Marks, Endings, Once and Lost are about them.
--   * Scheduler, Scheduler/Keys: PostgresSchedulerRepository (the same delivery-scheduler.ts);
--     Scheduler/Dispatch, with Retries and Ends: ApplicationScheduler (packages/runtime/src/scheduler/
--     application-scheduler.ts).
--   * Interactions, Interactions/Resolutions: PostgresPendingInteractionRepository (packages/database/
--     src/repositories/operations/pending-interactions.ts); Machine is the abstract machine of an
--     interaction, and Changes, Calls, Histories, Final and Scope are about them.
--   * Logging/State and Logging/Dispatcher, with Bounded, Steps, Kept, Loop and Events, and Logging/
--     Promises: LogDispatcher (packages/runtime/src/logging/dispatcher.ts), one event for each piece
--     of code between two awaits.
--   * Common: the Boolean tests and lists over the native numbers, the error values of packages/
--     contracts/src/errors.ts, and the calls that change a state and may throw.
--   * Tests: concrete runs.
--
-- A call is a function from the state to a value and a state, or to a thrown error and a state; a
-- repository call that rolls its transaction back leaves the state that it found. Instants are
-- numbers of milliseconds, and identifiers are strings that have passed their schemas; messages,
-- details and causes of errors are left out. What the database server, a domain handler and the
-- clock answer in an attempt of the mutation runner is a parameter, one record for each attempt.
-- The loops of the runner, of the resolver and of the scheduler's retries are recursions on the
-- attempts that are left, which the code bounds, as are the two loops of the team executor; the
-- loop of the log dispatcher is a sequence of events. Only `toString` of an amount runs on fuel:
-- one more than the number is enough for it. In a call of the delivery handler the caller's
-- signal, the transport and the database are conditions of the call; the signal's abort is a
-- point in the order of the call's awaits, and the calls run one after the other. Between the
-- calls of an attempt of the resolver other processes may commit. Identifiers that the code
-- generates are parameters.
--
-- Not modelled: the agents and their prompts, the Telegram and command-line front ends, the
-- domain handlers' SQL and the posting of journals, planning, ingestion, the query runtime and
-- reporting, the channel adapters, log sinks and readers, and the schemas' checks of lengths and
-- formats.
pub mod Common
pub mod Task
pub mod Storage
pub mod Artifacts
pub mod Ledger
pub mod Policy
pub mod Verification
pub mod Teams
pub mod Memory
pub mod Gateway
pub mod Database
pub mod Mutation
pub mod Logging
pub mod Scheduler
pub mod Interactions
pub mod Delivery
pub mod Accounting
pub mod Tests
