-- ===== src/Chat.antt =====
-- services/chat.
pub mod Message
pub mod Broker
pub mod Hub
pub mod Pod
pub mod Reader
pub mod Cluster
pub mod Config
pub mod Health
