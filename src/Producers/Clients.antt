-- ===== src/Producers/Clients.antt =====
-- pkg/events/websocket/websocket_producer.go: what happens to the client of an instance that
-- connects again before its first connection has ended.
use webapp_wago.Base.{ℕ, Bool, false, is_empty, none, ◌≡◌, refl}
use webapp_wago.Base.Text.{Text, text_eq_refl, to_lower}
use webapp_wago.Producers.Sockets.{Hub, serve, hang_up, add_client, remove_client, to_all, produce}

module _ (works : ℕ → Bool) (h : Hub) (instance_id : Text)
    (named : is_empty instance_id ≡ false) where
  gone :
      (old new : ℕ)
      → (hang_up instance_id old (serve instance_id new (serve instance_id old h))).clients
          instance_id
        ≡ none
  unfolding hang_up serve add_client remove_client
  gone old new = rw (named, text_eq_refl instance_id) refl

  kept :
      (old new : ℕ)
      → (hang_up instance_id old (serve instance_id new (serve instance_id old h))).broadcast
        ≡ h.broadcast
  unfolding hang_up serve add_client remove_client
  kept old new = rw named refl

  -- When a client connects for an instance, connects again, and the first connection then ends,
  -- the second one is forgotten as well: an event for the instance is written only to the clients
  -- for all instances, and no error is returned.
  pub produce-hang_up :
      (old new : ℕ) (queue payload : Text)
      → produce works queue payload instance_id
          (hang_up instance_id old (serve instance_id new (serve instance_id old h)))
        ≡ to_all works h.broadcast (record { queue = to_lower queue; payload = payload })
  unfolding produce
  produce-hang_up old new queue payload = rw (gone old new, kept old new) refl
