-- ===== src/Mutation.antt =====
-- packages/mutations/src: checked mutations of the accounting and planning domains.
pub mod Executor
pub mod Readback
pub mod Registry
pub mod Runner
pub mod Commands
pub mod Resolver
