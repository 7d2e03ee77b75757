-- ===== src/Producers.antt =====
-- pkg/events: the producers, which hand an event on to RabbitMQ, NATS, an HTTP address or
-- WebSocket clients. Each is a `Produce` of the queue's name, the payload and two more texts, of
-- which the meaning differs: for the brokers the third says whether to publish at all.
pub mod Rabbit
pub mod Nats
pub mod Http
pub mod Sockets
pub mod Publishing
pub mod Accepting
pub mod Posting
pub mod Clients
mod Tests
use webapp_wago.Base.{Bool, ◌||◌}
use webapp_wago.Base.Text.{Text, codes, text_eq}

pub record Message : Type 0 where
  pub queue : Text
  pub payload : Text

-- `enable == "global" || enable == "enabled"`: the only values for which a broker publishes.
abbrev pub is_on : Text → Bool
is_on enable = text_eq enable (codes "global") || text_eq enable (codes "enabled")
