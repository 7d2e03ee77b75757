-- ===== src/Producers/Nats.antt =====
-- pkg/events/nats/nats_producer.go. The connection's `Publish` is an operation on a world `W`.
use webapp_wago.Base.{Bool, true, false, List, [], ◌∷◌, ◌++◌, Option, none, some, if◌then◌else◌}
use webapp_wago.Base.Text.{Text, codes, text_eq}
use webapp_wago.Producers.{Message}

-- `conn` is none where `nats.Connect` failed.
pub record NatsState (W : Type 0) : Type 0 where
  pub conn : Option (Message → W → Bool × W)
  pub nats_global_enabled : Bool
  pub nats_global_events : List Text
  pub published : List Message
  pub world : W

module _ {W : Type 0} where
  unfoldable pub new_nats : Option (Message → W → Bool × W) → Bool → List Text → W → NatsState W
  new_nats none enabled events w = record {
    conn = none;
    nats_global_enabled = false;
    nats_global_events = [];
    published = [];
    world = w;
  }
  new_nats (some publish) enabled events w = record {
    conn = some publish;
    nats_global_enabled = enabled;
    nats_global_events = events;
    published = [];
    world = w;
  }

  abbrev pub publish_nats : (Message → W → Bool × W) → Message → NatsState W → Bool × NatsState W
  publish_nats f m s =
      let (fine, w) = f m s.world in
      (
        fine,
        record s { published = (if fine then s.published ++ m ∷ [] else s.published); world = w },
      )

  abbrev pub and_next : Bool × NatsState W → (NatsState W → Bool × NatsState W) → Bool × NatsState W
  and_next (false, s) k = (false, s)
  and_next (true, s) k = k s

  abbrev pub publish_if :
      Bool → (Message → W → Bool × W) → Message → NatsState W → Bool × NatsState W
  publish_if b f m s = if b then publish_nats f m s else (true, s)

  abbrev pub produce_on :
      Option (Message → W → Bool × W) → Message → Text → NatsState W → Bool × NatsState W
  produce_on none m enable s = (true, s)
  produce_on (some f) m enable s =
      and_next (publish_if (text_eq enable (codes "global")) f m s)
        (publish_if (text_eq enable (codes "enabled")) f m)

  -- `Produce`: whether there is no error.
  unfoldable pub produce : Text → Text → Text → NatsState W → Bool × NatsState W
  unfolding text_eq codes
  produce queue payload enable s =
      produce_on s.conn (record { queue = queue; payload = payload }) enable s
