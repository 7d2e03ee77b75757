-- ===== src/Producers/Accepting.antt =====
-- pkg/events/rabbitmq/rabbitmq_producer.go: a broker whose channels stay open is believed when
-- Produce returns no error.
use webapp_wago.Base.{[], ◌∷◌, ◌++◌, ◌≡◌, ◌≢◌}
use webapp_wago.Base.Text.{Text}
use webapp_wago.Producers.{Message}
use webapp_wago.Producers.Rabbit.{not_open, Amqp, Setup, State}

module _ {W : Type 0} (amqp : Amqp W) (setup : Setup) where
  -- The broker never answers that the channel is not open.
  abbrev pub StaysOpen : Type 0
  StaysOpen = (m : Message) (w : W) → (amqp.publish m w).0 ≢ not_open

  -- `r` accepted the message after `s`.
  abbrev Accepted : {A : Type 0} → Message → State W → A × State W → Type 0
  Accepted m s r = r.1.accepted_messages ≡ s.accepted_messages ++ m ∷ []
