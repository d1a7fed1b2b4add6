-- ===== src/Tests.antt =====
-- Concrete runs of the modelled parts.
mod Runtime
mod Teams
mod Memory
mod Gateway
mod Mutations
mod Commands
mod Acceptance
mod Registry
mod Logging
mod Accounting
mod Delivery
mod Interactions
mod Scheduler
mod Executor
