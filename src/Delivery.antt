-- ===== src/Delivery.antt =====
-- src/pipeline/delivery.py: one round of delivery of a finalized artifact to its recipients.
pub mod Backoff
pub mod Failure
pub mod Session
pub mod Recipient
pub mod Round
