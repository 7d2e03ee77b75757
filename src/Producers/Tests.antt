-- ===== src/Producers/Tests.antt =====
-- The producers of pkg/events at concrete networks, and the theorems about them.
use webapp_wago.Base.{
  ℕ, suc, ◌≤◌, true, false, [], ◌∷◌, replicate, some, ok, ltb, if◌then◌else◌, length, ◌≡◌, is_empty,
  ◌⊎◌, refl,
}
use webapp_wago.Base.Text.{codes, text_eq, to_lower, split}
use webapp_wago.Producers.{Message, is_on}
use webapp_wago.Producers.Rabbit.{
  accepted, not_open, Amqp, Setup, new_setup, State, dial_loop, reconnect, ensure_connection,
  publish_loop, publish_with_retry, produce, declare_all, global_queues, all_queues, queues_of,
  create_global_queues,
}
use webapp_wago.Base.Table.{assoc}
use webapp_wago.Producers.Http
use webapp_wago.Producers.Http.{
  Post, Answer, no_answer, answered, retry_loop, is_delivered, send_webhook_with_retry,
}
use webapp_wago.Producers.Nats
use webapp_wago.Producers.Sockets
use webapp_wago.Producers.Sockets.{
  Hub, new_hub, serve, hang_up, add_client, remove_client, add_broadcast_client,
  remove_broadcast_client, without, to_all,
}
use webapp_wago.Producers.Publishing.{Sent, produce-IsProduced}
use webapp_wago.Producers.Posting.{StopsRight, send_webhook_with_retry-StopsRight}

producers : Unit {0}
unfolding text_eq codes to_lower split assoc dial_loop reconnect ensure_connection publish_loop
    publish_with_retry produce declare_all global_queues all_queues queues_of create_global_queues
    new_setup retry_loop is_delivered send_webhook_with_retry Http.produce Nats.produce
    Nats.new_nats serve hang_up add_client remove_client add_broadcast_client
    remove_broadcast_client without Sockets.produce
producers = tt

-- A broker of which the channel is not open the first `n` times, where the world counts.
abbrev broker : ℕ → Amqp ℕ
broker n = record {
  dial = λ w. (true, w);
  is_closed = λ w. (false, w);
  channel = λ w. (true, w);
  confirm = λ w. (true, w);
  declare_queue = λ q w. (true, w);
  publish = λ m w. (if ltb w n then not_open else accepted, suc w);
}

abbrev setup : Setup
setup = new_setup (codes "amqp://a") true (codes "CALL" ∷ []) []

abbrev fresh : State ℕ
fresh = record {
  connected = false;
  attempts = [];
  accepted_messages = [];
  queues = [];
  panicked = false;
  world = 0;
}

abbrev message : Message
message = record { queue = codes "i.message"; payload = codes "p" }

accepted_late :
    (produce
      (broker 2)
      setup
      message.queue
      message.payload
      (codes "global")
      fresh).1.accepted_messages
    ≡ message ∷ []
unfolding producers
accepted_late = refl

-- Three attempts on channels that are not open, and no error: the message is lost.
lost :
    let r = produce (broker 3) setup message.queue message.payload (codes "global") fresh in
    (r.0 ≡ ok tt) × (r.1.accepted_messages ≡ []) × (length r.1.attempts ≡ 3)
unfolding producers
lost = (refl, refl, refl)

-- The channel cannot be opened again after the first attempt: the second is a call on nil.
nil_channel :
    let stuck : Amqp ℕ = record (broker 3) { channel = λ w. (ltb w 1, w) } in
    let r = produce stuck setup message.queue message.payload (codes "global") fresh in
    (r.1.panicked ≡ true) × (length r.1.attempts ≡ 1)
unfolding producers
nil_channel = (refl, refl)

global_call_queues : length (global_queues setup) ≡ 5
unfolding producers
global_call_queues = refl

produce-IsProduced_example :
    (j : ℕ) × (k : ℕ) × (j ≤ (if is_on (codes "enabled") then setup.max_retries else 0))
    × (k ≤ 1)
    × Sent message j k fresh
        (produce (broker 2) setup message.queue message.payload (codes "enabled") fresh).1
    × ((k ≡ 0)
        ⊎ ((produce (broker 2) setup message.queue message.payload (codes "enabled") fresh).0
            ≡ ok tt))
produce-IsProduced_example =
    produce-IsProduced (broker 2) setup message.queue message.payload (codes "enabled") fresh

abbrev steady : Amqp ℕ
steady = record (broker 0) { publish = λ m w. (accepted, suc w) }

-- A network that answers with the status 200 from the third attempt on.
abbrev network : ℕ → Post → Answer
network k p = if ltb k 2 then answered 500 true else answered 200 true

abbrev post : Post
post = record { url = codes "https://a.example"; body = codes "{}" }

third_time : length (send_webhook_with_retry network post).0 ≡ 3
unfolding producers
third_time = refl

given_up : send_webhook_with_retry (λ k p. no_answer) post ≡ (replicate 5 post, false)
unfolding producers
given_up = refl

send_webhook_with_retry-StopsRight_example :
    StopsRight network post 5 0 (send_webhook_with_retry network post)
send_webhook_with_retry-StopsRight_example = send_webhook_with_retry-StopsRight network post

abbrev hub : Hub
hub = serve [] 7 new_hub

two_frames :
    length
      (Sockets.produce
        (λ c. true)
        (codes "I.Message")
        (codes "p")
        (codes "i")
        (serve (codes "i") 1 hub)).0
    ≡ 2
unfolding producers
two_frames = refl

named : is_empty (codes "i") ≡ false
unfolding producers
named = refl

abbrev nats : Nats.NatsState ℕ
nats = Nats.new_nats (some (λ m w. (ltb w 1, suc w))) true [] 0

nats_once :
    ((Nats.produce (codes "q") (codes "p") (codes "global") nats).1.world ≡ 1)
    × ((Nats.produce (codes "q") (codes "p") (codes "true") nats).1.world ≡ 0)
unfolding producers
nats_once = (refl, refl)
