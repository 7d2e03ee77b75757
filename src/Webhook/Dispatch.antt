-- ===== src/Webhook/Dispatch.antt =====
-- Dispatch of pkg/webhook/service/webhook_service.go: an event goes to the webhooks it is for.
use webapp_wago.Base.{Bool, not, ◌&&◌, List, [], ◌∷◌, ◌++◌, any, is_empty, Option, if◌then◌else◌}
use webapp_wago.Base.Text.{Text, codes, to_lower, has_suffix}
use webapp_wago.Webhook.{Webhook}
use webapp_wago.Webhook.Filter.{Event, matches_filter, webhook_needs_names, group_suffix}
use webapp_wago.Webhook.Names.{NameResolver, NameState, group_name, contact_name}
use webapp_wago.Webhook.Store.{Repository}
use webapp_wago.Webhook.Service.{State, get_cached}

-- Which of the optional producers were handed in by `SetTransports`.
pub record Transports : Type 0 where
  pub rabbitmq : Bool
  pub websocket : Bool
  pub nats : Bool

pub data Channel : Type 0 where
  http : Channel
  to_rabbitmq : Channel
  to_websocket : Channel
  to_nats : Channel

-- A call of `Produce`.
pub record Delivery : Type 0 where
  pub channel : Channel
  pub queue_name : Text
  pub json_data : Text
  pub url : Text
  pub instance_id : Text

-- What `Dispatch` is called with.
pub record Call : Type 0 where
  pub instance_id : Text
  pub event_type : Text
  pub chat_jid : Text
  pub sender_jid : Text
  pub is_from_me : Bool
  pub json_data : Text

abbrev pub event_of : Call → Text → Text → Event
event_of c chat_name sender_name = record {
  event_type = c.event_type;
  chat_jid = c.chat_jid;
  sender_jid = c.sender_jid;
  chat_name = chat_name;
  sender_name = sender_name;
  is_from_me = c.is_from_me;
}

abbrev pub produce : Call → Webhook → Channel → Delivery
produce c w channel = record {
  channel = channel;
  queue_name = to_lower (c.instance_id ++ b'.' ∷ c.event_type);
  json_data = c.json_data;
  url = w.url;
  instance_id = c.instance_id;
}

abbrev pub when : Bool → Delivery → List Delivery → List Delivery
when b d ds = if b then d ∷ ds else ds

-- The calls for one webhook that matches, before those for the later ones.
abbrev pub publish : Transports → Call → Webhook → List Delivery → List Delivery
publish t c w ds =
    produce c w http
    ∷ when (w.rabbitmq_enable && t.rabbitmq) (produce c w to_rabbitmq) (
        when (w.websocket_enable && t.websocket) (produce c w to_websocket)
          (when (w.nats_enable && t.nats) (produce c w to_nats) ds))

unfoldable pub deliveries : Transports → Call → Text → Text → List Webhook → List Delivery
unfolding matches_filter to_lower
deliveries t c chat_name sender_name [] = []
deliveries t c chat_name sender_name (w ∷ ws) =
    let rest = deliveries t c chat_name sender_name ws in
    if not (matches_filter w (event_of c chat_name sender_name)) then rest else publish t c w rest

-- The name of a chat, which only a group has, and of a sender that is known.
unfoldable pub chat_name : Option NameResolver → Call → NameState → Text × NameState
unfolding has_suffix codes group_name
chat_name r c st =
    if has_suffix c.chat_jid group_suffix
    then group_name r c.instance_id c.chat_jid st
    else ([], st)

unfoldable pub sender_name : Option NameResolver → Call → NameState → Text × NameState
unfolding contact_name
sender_name r c st =
    if not (is_empty c.sender_jid) then contact_name r c.instance_id c.sender_jid st else ([], st)

-- Both names, and the state after the lookups.
unfoldable pub names : Option NameResolver → Call → NameState → Text × Text × NameState
unfolding chat_name sender_name
names r c st =
    let (chat, st') = chat_name r c st in
    let (sender, st'') = sender_name r c st' in (chat, sender, st'')

unfoldable pub names_if_needed :
    Option NameResolver → Call → List Webhook → NameState → Text × Text × NameState
unfolding names webhook_needs_names
names_if_needed r c ws st =
    if any (λ w. webhook_needs_names w) ws then names r c st else ([], [], st)

unfoldable pub fire :
    Option NameResolver → Transports → Call → List Webhook → NameState → List Delivery × NameState
unfolding names_if_needed deliveries
fire r t c ws st =
    let (chat, sender, st') = names_if_needed r c ws st in
    if is_empty ws then ([], st) else (deliveries t c chat sender ws, st')

unfoldable pub dispatch :
    {D E : Type 0}
    → Repository D E
    → Option NameResolver
    → Transports
    → Call
    → State D
    → NameState
    → List Delivery × State D × NameState
unfolding get_cached fire
dispatch repo r t c s st =
    let (ws, s') = get_cached repo c.instance_id s in
    let (sent, st') = fire r t c ws st in (sent, s', st')
