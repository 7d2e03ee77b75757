-- ===== src/Routing.antt =====
-- pkg/whatsmeow/service/whatsmeow.go, from an event to the producers: CallWebhook and what it
-- calls, and SendToGlobalQueues. A call of a producer is at most one on each channel, so that what
-- the producers answer is a test on channels.
pub mod Finding
pub mod Subscribing
pub mod Asking
pub mod Forwarding
pub mod Sending
pub mod Global
pub mod Queues
pub mod Sender
mod Tests
use webapp_wago.Base.{
  Bool, true, false, not, ◌&&◌, ◌||◌, List, [], ◌∷◌, ◌++◌, any, is_empty, Option, none, some,
  if◌then◌else◌,
}
use webapp_wago.Base.Text.{Text, codes, text_eq, equal_fold, split, has_suffix}
use webapp_wago.Base.Table.{assoc}
use webapp_wago.Json.{Json, object, text, Fields, get, as_map}
use webapp_wago.EventTypes.{is_event_type}
use webapp_wago.Instances.{Instance}
use webapp_wago.Webhook.Meta.{extract_event_meta, as_object}
use webapp_wago.Webhook.Dispatch.{Channel, http, to_rabbitmq, to_websocket, to_nats, Call}

-- `utils.Find`.
unfoldable pub find : List Text → Text → Bool
unfolding text_eq
find xs x = any (λ y. text_eq y x) xs

-- The loop over the names that an instance subscribes to: those that are no event type are left
-- out, and so are repeated ones.
unfoldable pub subscribe : List Text → List Text → List Text
unfolding is_event_type find
subscribe subscriptions [] = subscriptions
subscribe subscriptions (arg ∷ args) =
    let skipped = subscribe subscriptions args in
    let added = subscribe (subscriptions ++ arg ∷ []) args in
    if not (is_event_type arg) || find subscriptions arg then skipped else added

-- `strings.Split` always gives a first part, so the default for an empty list is never taken.
unfoldable pub subscriptions_of : Text → List Text
unfolding subscribe split
subscriptions_of events = subscribe [] (split b',' events)

-- `contains`.
unfoldable pub contains : List Text → Text → Bool
unfolding equal_fold
contains subscriptions event = any (λ sub. equal_fold sub event) subscriptions

-- The cases of the `switch` on the event with the subscription that each asks for.
abbrev pub categories : List (Text × Text)
categories =
    (codes "Message", codes "MESSAGE")
    ∷ (codes "SendMessage", codes "SEND_MESSAGE")
    ∷ (codes "Receipt", codes "READ_RECEIPT")
    ∷ (codes "Presence", codes "PRESENCE")
    ∷ (codes "HistorySync", codes "HISTORY_SYNC")
    ∷ (codes "ChatPresence", codes "CHAT_PRESENCE")
    ∷ (codes "Archive", codes "CHAT_PRESENCE")
    ∷ (codes "CallOffer", codes "CALL")
    ∷ (codes "CallAccept", codes "CALL")
    ∷ (codes "CallTerminate", codes "CALL")
    ∷ (codes "CallOfferNotice", codes "CALL")
    ∷ (codes "CallRelayLatency", codes "CALL")
    ∷ (codes "Connected", codes "CONNECTION")
    ∷ (codes "PairSuccess", codes "CONNECTION")
    ∷ (codes "TemporaryBan", codes "CONNECTION")
    ∷ (codes "LoggedOut", codes "CONNECTION")
    ∷ (codes "ConnectFailure", codes "CONNECTION")
    ∷ (codes "Disconnected", codes "CONNECTION")
    ∷ (codes "LabelEdit", codes "LABEL")
    ∷ (codes "LabelAssociationChat", codes "LABEL")
    ∷ (codes "LabelAssociationMessage", codes "LABEL")
    ∷ (codes "Contact", codes "CONTACT")
    ∷ (codes "PushName", codes "CONTACT")
    ∷ (codes "GroupInfo", codes "GROUP")
    ∷ (codes "JoinedGroup", codes "GROUP")
    ∷ (codes "NewsletterJoin", codes "NEWSLETTER")
    ∷ (codes "NewsletterLeave", codes "NEWSLETTER")
    ∷ (codes "QRCode", codes "QRCODE")
    ∷ (codes "QRTimeout", codes "QRCODE")
    ∷ (codes "QRSuccess", codes "QRCODE")
    ∷ []

-- The chat that an event of the three kinds with a fallback names: `data.Info.Chat`, or
-- `data.Chat` of a receipt.
abbrev pub string_of : Option Json → Option Text
string_of (some (text s)) = some s
string_of _ = none

abbrev pub member : Text → Option Fields → Option Json
member k none = none
member k (some m) = get k m

unfoldable pub message_chat : Fields → Option Text
unfolding get codes
message_chat m =
    string_of
      (member (codes "Chat") (as_object (member (codes "Info") (as_object (get (codes "data") m)))))

unfoldable pub receipt_chat : Fields → Option Text
unfolding get codes
receipt_chat m = string_of (member (codes "Chat") (as_object (get (codes "data") m)))

-- Subscribers to groups or newsletters get what happens in such a chat.
abbrev pub by_chat : List Text → Option Text → Bool
by_chat subs none = false
by_chat subs (some chat) =
    (has_suffix chat (codes "@g.us") && contains subs (codes "GROUP"))
    || (has_suffix chat (codes "@newsletter") && contains subs (codes "NEWSLETTER"))

abbrev pub by_category : List Text → Option Text → Bool
by_category subs none = false
by_category subs (some c) = contains subs c

-- Whether the `switch` on the event's kind calls `sendToQueueOrWebhook`.
unfoldable pub is_wanted : List Text → Text → Fields → Bool
unfolding text_eq codes contains assoc message_chat receipt_chat has_suffix
is_wanted subs event_type m =
    if text_eq event_type (codes "Message")
    then contains subs (codes "MESSAGE") || by_chat subs (message_chat m)
    else if text_eq event_type (codes "SendMessage")
    then contains subs (codes "SEND_MESSAGE") || by_chat subs (message_chat m)
    else if text_eq event_type (codes "Receipt")
    then contains subs (codes "READ_RECEIPT") || by_chat subs (receipt_chat m)
    else if text_eq event_type (codes "ButtonClick")
    then contains subs (codes "BUTTON_CLICK") || contains subs (codes "MESSAGE")
    else by_category subs (assoc event_type categories)

-- A call of `Produce`.
pub record Handoff : Type 0 where
  pub channel : Channel
  pub queue : Text
  pub payload : Text
  pub third : Text
  pub fourth : Text

abbrev pub is_enabled : Text → Bool
is_enabled flag = text_eq flag (codes "enabled") || text_eq flag (codes "true")

-- One step of `sendToQueueOrWebhook`: a call that fails is the last one.
abbrev pub hand_on : (Channel → Bool) → Bool → Handoff → List Handoff → List Handoff
hand_on works asked h later = if asked then (h ∷ (if works h.channel then later else [])) else later

abbrev pub is_set : Text → Bool
is_set webhook = not (is_empty webhook) && not (text_eq webhook (codes "disabled"))

module _ (i : Instance) (queue payload : Text) where
  abbrev pub rabbitmq_call : Handoff
  rabbitmq_call = record {
    channel = to_rabbitmq;
    queue = queue;
    payload = payload;
    third = i.rabbitmq_enable;
    fourth = i.id;
  }

  abbrev pub nats_call : Handoff
  nats_call = record {
    channel = to_nats;
    queue = queue;
    payload = payload;
    third = i.nats_enable;
    fourth = i.id;
  }

  abbrev pub websocket_call : Handoff
  websocket_call = record {
    channel = to_websocket;
    queue = queue;
    payload = payload;
    third = i.id;
    fourth = i.token;
  }

  abbrev pub webhook_call : Handoff
  webhook_call = record {
    channel = http;
    queue = queue;
    payload = payload;
    third = i.webhook;
    fourth = i.id;
  }

unfoldable pub send_to_queue_or_webhook : (Channel → Bool) → Instance → Text → Text → List Handoff
unfolding text_eq codes
send_to_queue_or_webhook works i queue payload =
    hand_on works (is_enabled i.rabbitmq_enable) (rabbitmq_call i queue payload) (
      hand_on works (is_enabled i.nats_enable) (nats_call i queue payload) (
        hand_on works (is_enabled i.websocket_enable) (websocket_call i queue payload)
          (hand_on works (is_set i.webhook) (webhook_call i queue payload) [])))

-- What `CallWebhook` does, in order.
pub data Action : Type 0 where
  dispatched : Call → Action
  invalidated : Text → Action
  handed : Handoff → Action

abbrev pub handed_all : List Handoff → List Action
handed_all [] = []
handed_all (h ∷ hs) = handed h ∷ handed_all hs

abbrev pub changes_names : Text → Bool
changes_names event_type =
    find
      (codes "Contact"
        ∷ codes "PushName"
        ∷ codes "GroupInfo"
        ∷ codes "JoinedGroup"
        ∷ codes "Connected"
        ∷ [])
      event_type

-- `maybeInvalidateNames`, with whether there is a webhook service.
unfoldable pub maybe_invalidate_names : Bool → Text → Text → List Action
unfolding find codes
maybe_invalidate_names service instance_id event_type =
    if service && changes_names event_type then invalidated instance_id ∷ [] else []

-- The part of `CallWebhook` that comes before the legacy lane.
abbrev pub call_service : Bool → Instance → Text → Text → Text × Text × Bool → List Action
call_service service i event_type payload (chat, sender, own) =
    if service
    then dispatched (record {
      instance_id = i.id;
      event_type = event_type;
      chat_jid = chat;
      sender_jid = sender;
      is_from_me = own;
      json_data = payload;
    })
      ∷ []
    else []

abbrev pub from_me : Bool → Text × Text × Bool → Bool
from_me service (chat, sender, own) = service && own

unfoldable pub legacy :
    (Channel → Bool) → Bool → Instance → Text → Text → Text → Fields → List Handoff
unfolding subscriptions_of contains is_wanted send_to_queue_or_webhook codes
legacy works own i queue payload event_type m =
    if own && i.settings.ignore_from_me
    then []
    else let subs = subscriptions_of i.events in
      if contains subs (codes "ALL") || is_wanted subs event_type m
      then send_to_queue_or_webhook works i queue payload
      else []

abbrev pub call_event :
    (Channel → Bool) → Bool → Instance → Text → Text → Fields → Option Text → List Action
call_event works service i queue payload m none = []
call_event works service i queue payload m (some event_type) =
    call_service service i event_type payload (extract_event_meta m)
    ++ maybe_invalidate_names service i.id event_type
    ++ handed_all
        (legacy works (from_me service (extract_event_meta m)) i queue payload event_type m)

abbrev pub call_map : (Channel → Bool) → Bool → Instance → Text → Text → Option Fields → List Action
call_map works service i queue payload none = []
call_map works service i queue payload (some m) =
    call_event works service i queue payload m (string_of (get (codes "event") m))

-- `CallWebhook`, with `json.Unmarshal` and whether there is a webhook service.
unfoldable pub call_webhook :
    (Text → Option Json) → (Channel → Bool) → Bool → Instance → Text → Text → List Action
unfolding get codes
call_webhook unmarshal works service i queue payload =
    call_map works service i queue payload (as_map (unmarshal payload))
