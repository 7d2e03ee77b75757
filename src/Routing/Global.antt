-- ===== src/Routing/Global.antt =====
-- SendToGlobalQueues of pkg/whatsmeow/service/whatsmeow.go: the queues that all instances share.
use webapp_wago.Base.{Bool, not, List, [], ◌∷◌, ◌++◌, is_empty, Option, none, some, if◌then◌else◌}
use webapp_wago.Base.Text.{Text, codes, text_eq, to_lower}
use webapp_wago.Base.Table.{assoc}
use webapp_wago.Webhook.Dispatch.{to_rabbitmq, to_nats}
use webapp_wago.Routing.{find, categories, Handoff}

pub record Config : Type 0 where
  pub amqp_global_enabled : Bool
  pub amqp_specific_events : List Text
  pub amqp_global_events : List Text
  pub nats_global_enabled : Bool
  pub nats_global_events : List Text

-- The two `switch`es, which have the cases of CallWebhook without ButtonClick.
unfoldable pub global_event_type : Text → Option Text
unfolding assoc text_eq codes
global_event_type event_type = assoc event_type categories

-- The function returns where the event has no group, before it comes to NATS.
pub data Choice : Type 0 where
  leave : Choice
  skip : Choice
  send : Text → Choice

abbrev pub amqp_group : Config → Text → Option Text → Choice
amqp_group c event_type none = leave
amqp_group c event_type (some g) =
    if find c.amqp_global_events g then send (to_lower event_type) else skip

unfoldable pub amqp_choice : Config → Text → Choice
unfolding find to_lower global_event_type
amqp_choice c event_type =
    if not c.amqp_global_enabled
    then skip
    else if not (is_empty c.amqp_specific_events)
    then (if find c.amqp_specific_events event_type then send (to_lower event_type) else skip)
    else amqp_group c event_type (global_event_type event_type)

abbrev pub nats_group : Config → Text → Option Text → Choice
nats_group c event_type none = skip
nats_group c event_type (some g) =
    if find c.nats_global_events g then send (to_lower event_type) else skip

unfoldable pub nats_choice : Config → Text → Choice
unfolding find to_lower global_event_type
nats_choice c event_type =
    if not c.nats_global_enabled
    then skip
    else nats_group c event_type (global_event_type event_type)

abbrev pub on_amqp : Text → Text → Choice → List Handoff
on_amqp payload user (send q) =
    record {
      channel = to_rabbitmq;
      queue = q;
      payload = payload;
      third = codes "global";
      fourth = user;
    }
    ∷ []
on_amqp payload user leave = []
on_amqp payload user skip = []

abbrev pub on_nats : Text → Text → Choice → List Handoff
on_nats payload user (send q) =
    record {
      channel = to_nats;
      queue = q;
      payload = payload;
      third = codes "global";
      fourth = user;
    }
    ∷ []
on_nats payload user leave = []
on_nats payload user skip = []

abbrev pub unless_left : Choice → List Handoff → List Handoff
unless_left leave hs = []
unless_left skip hs = hs
unless_left (send q) hs = hs

unfoldable pub send_to_global_queues : Config → Text → Text → Text → List Handoff
unfolding amqp_choice nats_choice codes
send_to_global_queues c event_type payload user =
    on_amqp payload user (amqp_choice c event_type)
    ++ unless_left (amqp_choice c event_type) (on_nats payload user (nats_choice c event_type))
