-- ===== src/Routing/Tests.antt =====
-- The routing of events in pkg/whatsmeow/service at concrete instances, and the theorems about it.
use webapp_wago.Base.{
  Bool, true, false, not, ◌&&◌, [], ◌∷◌, map, select, Option, some, ok, if◌then◌else◌, ◌≡◌, refl,
  arith,
}
use webapp_wago.Base.Text.{Text, codes, text_eq, to_lower, split, equal_fold, has_suffix}
use webapp_wago.Base.Table.{assoc}
use webapp_wago.Base.Containment.{Lacks}
use webapp_wago.Json.{Json, text, object, Fields, end, field, get, pick_string}
use webapp_wago.EventTypes.{is_event_type}
use webapp_wago.Instances.{Instance, no_instance}
use webapp_wago.Producers.Rabbit.{
  Amqp, accepted, State, new_setup, dial_loop, reconnect, ensure_connection, publish_loop,
  publish_with_retry, produce, declare_all, queues_of, all_queues, global_queues,
  create_global_queues,
}
use webapp_wago.Webhook.Meta.{extract_event_meta}
use webapp_wago.Webhook.Dispatch.{Channel, http, to_rabbitmq, to_nats}
use webapp_wago.Routing.{
  find, subscribe, subscriptions_of, contains, message_chat, receipt_chat, is_wanted,
  send_to_queue_or_webhook, string_of, maybe_invalidate_names, legacy, call_webhook, invalidated,
}
use webapp_wago.Routing.Global.{
  Config, global_event_type, amqp_choice, nats_choice, send, send_to_global_queues,
}
use webapp_wago.Routing.Finding.{IsIn}
use webapp_wago.Routing.Queues.{setup_of, create_global_queues-IsIn}
use webapp_wago.Routing.Subscribing.{IsName}
use webapp_wago.Routing.Asking.{asked}
use webapp_wago.Routing.Forwarding.{handoffs, call_webhook-handoffs}
use webapp_wago.Routing.Sending.{
  uses, in_order, until_failure, send_to_queue_or_webhook-until_failure, run_rabbitmq, TriedFor,
  run_rabbitmq-send,
}
use webapp_wago.Routing.Sender.{index, clean_sender_id}

routing : Unit {0}
unfolding text_eq codes to_lower split equal_fold has_suffix assoc get pick_string is_event_type
    extract_event_meta find subscribe subscriptions_of contains message_chat receipt_chat is_wanted
    send_to_queue_or_webhook maybe_invalidate_names legacy call_webhook global_event_type
    amqp_choice nats_choice send_to_global_queues dial_loop reconnect ensure_connection publish_loop
    publish_with_retry produce declare_all queues_of all_queues global_queues create_global_queues
    new_setup run_rabbitmq index clean_sender_id
routing = tt

-- An instance that wants group events on RabbitMQ and at an address.
abbrev instance_a : Instance
instance_a = record no_instance {
  id = codes "a";
  webhook = codes "https://a.example";
  rabbitmq_enable = codes "true";
  events = codes "GROUP,CALL,CALL,nonsense";
}

-- A message in a group, as its fields and with a decoder that gives them.
abbrev fields : Fields
fields = field (codes "event") (text (codes "Message")) (
    field (codes "data")
      (object
        (field (codes "Info") (object (field (codes "Chat") (text (codes "1@g.us")) end)) end))
      end)

abbrev decode : Text → Option Json
decode payload = some (object fields)

abbrev working : Channel → Bool
working ch = true

abbrev broken_rabbitmq : Channel → Bool
broken_rabbitmq to_rabbitmq = false
broken_rabbitmq _ = true

two_subscriptions : subscriptions_of instance_a.events ≡ codes "GROUP" ∷ codes "CALL" ∷ []
unfolding routing
two_subscriptions = refl

no_events_no_subscriptions : subscriptions_of [] ≡ []
unfolding routing
no_events_no_subscriptions = refl

by_group :
    map
      (λ h. h.channel)
      (handoffs (call_webhook decode working true instance_a (codes "q") (codes "p")))
    ≡ to_rabbitmq ∷ http ∷ []
unfolding routing
by_group = refl

stopped :
    map
      (λ h. h.channel)
      (handoffs (call_webhook decode broken_rabbitmq true instance_a (codes "q") (codes "p")))
    ≡ to_rabbitmq ∷ []
unfolding routing
stopped = refl

decoded : string_of (get (codes "event") fields) ≡ some (codes "Message")
unfolding routing
decoded = refl

names_change :
    maybe_invalidate_names true (codes "a") (codes "PushName") ≡ invalidated (codes "a") ∷ []
unfolding routing
names_change = refl

call-IsName : IsName (codes "CALL")
unfolding routing
call-IsName = refl

call_webhook-handoffs_example :
    handoffs (call_webhook decode working true instance_a (codes "q") (codes "p")) ≡ (
      if not (true && (extract_event_meta fields).2 && instance_a.settings.ignore_from_me)
        && asked (split b',' instance_a.events) (codes "Message") fields
      then send_to_queue_or_webhook working instance_a (codes "q") (codes "p")
      else [])
call_webhook-handoffs_example =
    call_webhook-handoffs working instance_a (codes "q") (codes "p") fields (codes "Message") decode
      true refl decoded

send_to_queue_or_webhook-until_failure_example :
    map
      (λ h. h.channel)
      (send_to_queue_or_webhook broken_rabbitmq instance_a (codes "q") (codes "p"))
    ≡ until_failure broken_rabbitmq (select (uses instance_a) in_order)
send_to_queue_or_webhook-until_failure_example =
    send_to_queue_or_webhook-until_failure broken_rabbitmq instance_a (codes "q") (codes "p")

-- A broker that takes everything.
abbrev broker : Amqp (Unit {0})
broker = record {
  dial = λ w. (true, w);
  is_closed = λ w. (false, w);
  channel = λ w. (true, w);
  confirm = λ w. (true, w);
  declare_queue = λ q w. (true, w);
  publish = λ m w. (accepted, w);
}

abbrev fresh : State (Unit {0})
fresh = record {
  connected = false;
  attempts = [];
  accepted_messages = [];
  queues = [];
  panicked = false;
  world = tt;
}

abbrev config : Config
config = record {
  amqp_global_enabled = true;
  amqp_specific_events = [];
  amqp_global_events = codes "CALL" ∷ codes "GROUP" ∷ [];
  nats_global_enabled = true;
  nats_global_events = codes "GROUP" ∷ [];
}

run_rabbitmq-send_example :
    TriedFor broker
      (setup_of config (codes "amqp://a"))
      instance_a.rabbitmq_enable
      (record { queue = codes "q"; payload = codes "p" })
      fresh
      (run_rabbitmq broker
        (setup_of config (codes "amqp://a"))
        (send_to_queue_or_webhook working instance_a (codes "q") (codes "p"))
        fresh)
run_rabbitmq-send_example =
    run_rabbitmq-send broker (setup_of config (codes "amqp://a")) working instance_a (codes "q")
      (codes "p") fresh

both_brokers :
    map
      (λ h. h.channel)
      (send_to_global_queues config (codes "JoinedGroup") (codes "p") (codes "a"))
    ≡ to_rabbitmq ∷ to_nats ∷ []
unfolding routing
both_brokers = refl

no_clicks : send_to_global_queues config (codes "ButtonClick") (codes "p") (codes "a") ≡ []
unfolding routing
no_clicks = refl

created : (create_global_queues broker (setup_of config (codes "amqp://a")) fresh).0 ≡ ok tt
unfolding routing
created = refl

chosen : amqp_choice config (codes "CallOffer") ≡ send (codes "calloffer")
unfolding routing
chosen = refl

create_global_queues-IsIn_example :
    IsIn
      (codes "calloffer")
      (create_global_queues broker (setup_of config (codes "amqp://a")) fresh).1.queues
create_global_queues-IsIn_example =
    create_global_queues-IsIn broker config (codes "amqp://a") fresh (codes "CallOffer")
      (codes "calloffer") created chosen

no_colon : Lacks b':' (codes "54")
unfolding routing
no_colon = ((λ e. absurd (omega arith)), ((λ e. absurd (omega arith)), tt))

no_at : Lacks b'@' (codes "54")
unfolding routing
no_at = ((λ e. absurd (omega arith)), ((λ e. absurd (omega arith)), tt))

no_at_device : Lacks b'@' (codes "3")
unfolding routing
no_at_device = ((λ e. absurd (omega arith)), tt)
