-- ===== src/Gateway.antt =====
-- packages/runtime/src/gateway: how a message from a channel becomes a turn of its conversation.
pub mod Turns
pub mod Channel
