-- ===== src/Delivery.antt =====
-- The delivery of final responses: the handler, its repository and the failures of a transport.
pub mod Failures
pub mod Store
pub mod Handler
pub mod Marks
pub mod Endings
pub mod Once
pub mod Lost
