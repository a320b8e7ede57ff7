-- ===== src/Messaging.antt =====
-- Messages and the queue that delivers them (vmtrader/messaging/).
pub mod Mailbox
pub mod Events
