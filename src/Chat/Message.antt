-- ===== src/Chat/Message.antt =====
-- services/chat/message.go.
use vidcast.Base.{ℕ, Bytes}

-- Instants are natural numbers.
pub record Message : Type 0 where
  pub room : Bytes
  pub username : Bytes
  pub body : Bytes
  pub sent_at : ℕ
