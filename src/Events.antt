-- ===== src/Events.antt =====
-- internal/events: the notification path from the Storage Queue to the reconciler.
pub mod Fold
pub mod Base64
pub mod Parser
pub mod Listener
pub mod Registration
