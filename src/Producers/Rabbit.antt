-- ===== src/Producers/Rabbit.antt =====
-- pkg/events/rabbitmq/rabbitmq_producer.go. The AMQP library is a record of operations on a world
-- `W`; pauses between attempts and logging are left out.
use webapp_wago.Base.{
  ℕ, zero, suc, Bool, true, false, not, List, [], ◌∷◌, ◌++◌, map, is_empty, value_or, Result, ok,
  err, if◌then◌else◌,
}
use webapp_wago.Base.Table.{assoc}
use webapp_wago.Base.Text.{Text, codes, text_eq, to_lower}
use webapp_wago.Producers.{Message, is_on}

-- What `Publish` gives: the error 504 of a channel that is not open is told from others.
pub data Published : Type 0 where
  accepted : Published
  not_open : Published
  refused : Published

-- Whether each call succeeds; `is_closed` is asked of a connection that is there.
pub record Amqp (W : Type 0) : Type 0 where
  pub dial : W → Bool × W
  pub is_closed : W → Bool × W
  pub channel : W → Bool × W
  pub confirm : W → Bool × W
  pub declare_queue : Text → W → Bool × W
  pub publish : Message → W → Published × W

pub data Fault : Type 0 where
  no_url : Fault
  no_connection : Fault
  no_channel : Fault
  no_confirms : Fault
  not_declared : Fault
  not_published : Fault

-- The configuration of `NewRabbitMQProducer`.
pub record Setup : Type 0 where
  pub conn_str : Text
  pub max_retries : ℕ
  pub amqp_global_enabled : Bool
  pub amqp_global_events : List Text
  pub amqp_specific_events : List Text

unfoldable pub new_setup : Text → Bool → List Text → List Text → Setup
new_setup conn_str enabled events specific = record {
  conn_str = conn_str;
  max_retries = 3;
  amqp_global_enabled = enabled;
  amqp_global_events = events;
  amqp_specific_events = specific;
}

-- Whether there is a connection, and what was handed to the library so far: the attempts to
-- publish, those that were accepted, and the queues declared. `panicked` is whether a method of the
-- nil channel was called, which ends the process: what follows then stands for nothing.
pub record State (W : Type 0) : Type 0 where
  pub connected : Bool
  pub attempts : List Message
  pub accepted_messages : List Message
  pub queues : List Text
  pub panicked : Bool
  pub world : W

module _ {W : Type 0} (amqp : Amqp W) (setup : Setup) where
  abbrev pub with_dial : Bool × W → State W → State W
  with_dial (b, w) s = record s { connected = b; world = w }

  -- The loop of `reconnect`: a dial that fails leaves no connection.
  unfoldable pub dial_loop : ℕ → State W → Bool × State W
  dial_loop zero s = (false, s)
  dial_loop (suc n) s =
      let s' = with_dial (amqp.dial s.world) s in
      let rest = dial_loop n s' in if s'.connected then (true, s') else rest

  unfoldable pub reconnect : State W → Bool × State W
  unfolding dial_loop
  reconnect s = if is_empty setup.conn_str then (false, s) else dial_loop 3 s

  abbrev pub if_closed : Bool × W → State W → Bool × State W
  if_closed (closed, w) s =
      if closed then reconnect (record s { world = w }) else (true, record s { world = w })

  unfoldable pub ensure_connection : State W → Bool × State W
  unfolding reconnect
  ensure_connection s = if s.connected then if_closed (amqp.is_closed s.world) s else reconnect s

  abbrev pub tried : Message → Published × W → State W → Published × State W
  tried m (accepted, w) s = (
    accepted,
    record s {
      attempts = s.attempts ++ m ∷ [];
      accepted_messages = s.accepted_messages ++ m ∷ [];
      world = w;
    },
  )
  tried m (not_open, w) s = (not_open, record s { attempts = s.attempts ++ m ∷ []; world = w })
  tried m (refused, w) s = (refused, record s { attempts = s.attempts ++ m ∷ []; world = w })

  abbrev pub opened : Bool × W → State W → Bool × State W
  opened (b, w) s = (b, record s { world = w })

  -- After the error 504: whether the outer `err` is nil now, and whether there is a channel. A
  -- reconnection that fails leaves both as they were, one that works opens a new channel, and where
  -- that fails the channel is nil.
  abbrev pub reopen : Bool × State W → (Bool × Bool) × State W
  reopen (false, s) = ((false, true), s)
  reopen (true, s) = let (b, s') = opened (amqp.channel s.world) s in ((b, b), s')

  -- One round of the loop of `publishWithRetry`: whether it is over, whether `err` is nil, and
  -- whether there is a channel for the next round.
  abbrev pub round_after : Published × State W → (Bool × Bool × Bool) × State W
  round_after (accepted, s) = ((true, true, true), s)
  round_after (refused, s) = ((false, false, true), s)
  round_after (not_open, s) =
      let ((fine, there), s') = reopen (ensure_connection s) in ((false, fine, there), s')

  -- A method of the nil channel.
  abbrev pub on_channel : Bool → State W → Bool × State W → Bool × State W
  on_channel true s r = r
  on_channel false s r = (false, record s { panicked = true })

  -- The last value of `err` counts when the rounds are used up; `fine` is whether it is nil, and
  -- `there` whether the channel is not.
  unfoldable pub publish_loop : ℕ → Bool → Bool → Message → State W → Bool × State W
  unfolding ensure_connection
  publish_loop zero fine there m s = (fine, s)
  publish_loop (suc n) fine there m s =
      let ((over, fine', there'), s') = round_after (tried m (amqp.publish m s.world) s) in
      let rest = publish_loop n fine' there' m s' in
      on_channel there s (if over then (true, s') else rest)

  unfoldable pub publish_with_retry : Message → State W → Bool × State W
  unfolding publish_loop
  publish_with_retry m s = publish_loop setup.max_retries true true m s

  -- A chain of calls that may fail.
  abbrev pub then_do :
      {A : Type 0}
      → Fault
      → Bool × State W
      → (State W → Result Fault A × State W)
      → Result Fault A × State W
  then_do f (false, s) k = (err f, s)
  then_do f (true, s) k = k s

  abbrev pub declared : Text → Bool × W → State W → Bool × State W
  declared q (false, w) s = (false, record s { world = w })
  declared q (true, w) s = (true, record s { queues = s.queues ++ q ∷ []; world = w })

  abbrev pub declare_queue : Text → State W → Bool × State W
  declare_queue q s = declared q (amqp.declare_queue q s.world) s

  -- `Produce`.
  unfoldable pub produce : Text → Text → Text → State W → Result Fault (Unit {0}) × State W
  unfolding ensure_connection publish_with_retry text_eq codes
  produce queue payload enable s =
      if is_empty setup.conn_str
      then (err no_url, s)
      else then_do no_connection (ensure_connection s) (λ sa.
        then_do no_channel (opened (amqp.channel sa.world) sa) (λ sb.
          then_do no_confirms (opened (amqp.confirm sb.world) sb) (λ sc.
            if is_on enable
            then then_do not_declared (declare_queue queue sc) (λ sd.
              then_do not_published
                (publish_with_retry (record { queue = queue; payload = payload }) sd)
                (λ se. (ok tt, se)))
            else (ok tt, sc))))

  unfoldable pub declare_all : List Text → State W → Result Fault (Unit {0}) × State W
  declare_all [] s = (ok tt, s)
  declare_all (q ∷ qs) s = then_do not_declared (declare_queue q s) (declare_all qs)

-- The map `eventMap` of `CreateGlobalQueues`.
abbrev pub event_map : List (Text × List Text)
event_map =
    (codes "MESSAGE", codes "message" ∷ [])
    ∷ (codes "SEND_MESSAGE", codes "sendmessage" ∷ [])
    ∷ (codes "READ_RECEIPT", codes "receipt" ∷ [])
    ∷ (codes "PRESENCE", codes "presence" ∷ [])
    ∷ (codes "HISTORY_SYNC", codes "historysync" ∷ [])
    ∷ (codes "CHAT_PRESENCE", codes "chatpresence" ∷ codes "archive" ∷ [])
    ∷ (
      codes "CALL",
      codes "calloffer"
          ∷ codes "callaccept"
          ∷ codes "callterminate"
          ∷ codes "calloffernotice"
          ∷ codes "callrelaylatency"
          ∷ [],
    )
    ∷ (
      codes "CONNECTION",
      codes "connected"
          ∷ codes "pairsuccess"
          ∷ codes "temporaryban"
          ∷ codes "loggedout"
          ∷ codes "connectfailure"
          ∷ codes "disconnected"
          ∷ [],
    )
    ∷ (
      codes "LABEL",
      codes "labeledit" ∷ codes "labelassociationchat" ∷ codes "labelassociationmessage" ∷ [],
    )
    ∷ (codes "CONTACT", codes "contact" ∷ codes "pushname" ∷ [])
    ∷ (codes "GROUP", codes "groupinfo" ∷ codes "joinedgroup" ∷ [])
    ∷ (codes "NEWSLETTER", codes "newsletterjoin" ∷ codes "newsletterleave" ∷ [])
    ∷ (codes "QRCODE", codes "qrcode" ∷ codes "qrtimeout" ∷ codes "qrsuccess" ∷ [])
    ∷ []

unfoldable pub queues_of : Text → List Text
unfolding assoc codes text_eq
queues_of e = value_or (assoc e event_map) []

unfoldable pub all_queues : List Text → List Text
unfolding queues_of
all_queues [] = []
all_queues (e ∷ es) = queues_of e ++ all_queues es

-- The queues that `CreateGlobalQueues` declares, in order.
unfoldable pub global_queues : Setup → List Text
unfolding all_queues to_lower
global_queues setup =
    if is_empty setup.amqp_specific_events
    then all_queues setup.amqp_global_events
    else map to_lower setup.amqp_specific_events

unfoldable pub create_global_queues :
    {W : Type 0} → Amqp W → Setup → State W → Result Fault (Unit {0}) × State W
unfolding ensure_connection declare_all global_queues
create_global_queues amqp setup s =
    if not setup.amqp_global_enabled
    then (ok tt, s)
    else then_do amqp setup no_connection (ensure_connection amqp setup s) (λ sa.
      then_do amqp setup no_channel (opened amqp setup (amqp.channel sa.world) sa)
        (λ sb. declare_all amqp setup (global_queues setup) sb))
