-- ===== src/Webhook/Tests.antt =====
-- The webhook service of pkg/webhook/service at concrete webhooks and events, and the theorems
-- about it.
use webapp_wago.Base.{
  is_empty, All, Bool, true, false, [], ◌∷◌, Option, none, some, err, ◌≡◌, ◌↔◌, refl,
}
use webapp_wago.Base.Text.{Text, codes, text_eq, to_lower, equal_fold, has_suffix, trim_space}
use webapp_wago.Json.{boolean, object, Fields, end, field, get, pick_string}
use webapp_wago.EventTypes.{is_event_type}
use webapp_wago.Webhook.{WebhookInput, valid_chat_type, to_model}
use webapp_wago.Webhook.Glob.{glob}
use webapp_wago.Webhook.Filter.{Event, matches_filter, match_pattern_allowlist, webhook_needs_names}
use webapp_wago.Webhook.Firing.{IsFor, matches_filter_iff}
use webapp_wago.Webhook.Hosts.{
  Ip, dotted, Resolver, private_host, check, check_all, validate_webhook_host,
}
use webapp_wago.Webhook.Blocking.{IsPublic, found_addresses, validate_webhook_host-IsPublic}
use webapp_wago.Webhook.Names.{lookups, invalidate_names}
use webapp_wago.Webhook.Service.{get_cached, create, validate, reload}
use webapp_wago.Webhook.Steps.{step, steps}
use webapp_wago.Webhook.Dispatch.{deliveries, names, fire, dispatch}
use webapp_wago.Webhook.Meta.{extract_event_meta}

service : Unit {0}
unfolding text_eq codes to_lower equal_fold has_suffix trim_space is_event_type valid_chat_type
    to_model get pick_string glob match_pattern_allowlist matches_filter webhook_needs_names
    validate_webhook_host lookups invalidate_names step steps get_cached create validate reload
    deliveries names fire dispatch extract_event_meta check check_all
service = tt

-- Patterns.
abbrev matches_text : Text → Text → Bool
matches_text a v = glob a v

star_and_class : matches_text (codes "*[a-c]?x") (codes "zzbqx") ≡ true
unfolding service
star_and_class = refl

no_slash_in_star : matches_text (codes "a*c") (codes "a/c") ≡ false
unfolding service
no_slash_in_star = refl

bad_pattern : matches_text (codes "[a-") (codes "a") ≡ false
unfolding service
bad_pattern = refl

escaped_star : matches_text (codes "a\\*c") (codes "a*c") ≡ true
unfolding service
escaped_star = refl

-- A class that takes a slash: the first place for it is not the one that would match.
greedy : matches_text (codes "*[/a]*b") (codes "a/b") ≡ false
unfolding service
greedy = refl

-- A webhook for the messages of groups, and an event.
abbrev input : WebhookInput
input = record {
  url = codes " https://a.example/x";
  enabled = none;
  events = codes "MESSAGE" ∷ [];
  chat_type = [];
  chat_ids = codes "*@g.us" ∷ [];
  senders = [];
  chat_names = codes "Harness*" ∷ [];
  sender_names = [];
  ignore_from_me = some false;
  rabbitmq_enable = none;
  websocket_enable = none;
  nats_enable = some true;
}

abbrev event : Event
event = record {
  event_type = codes "MESSAGE";
  chat_jid = codes "12@g.us";
  sender_jid = codes "54@s.whatsapp.net";
  chat_name = codes "Harness A";
  sender_name = [];
  is_from_me = true;
}

it_matches : matches_filter (to_model (codes "i") input) event ≡ true
unfolding service
it_matches = refl

matches_filter_iff_example :
    (matches_filter (to_model (codes "i") input) event ≡ true)
    ↔ IsFor (to_model (codes "i") input) event
matches_filter_iff_example = matches_filter_iff (to_model (codes "i") input) event

-- Hosts.
abbrev network : Resolver
network = record {
  parse_ip = λ h. if_local h;
  lookup_ip = λ h. some (dotted 93 184 216 34 ∷ dotted 10 1 2 3 ∷ []);
}
  where
    if_local : Text → Option Ip
    if_local h = none

second_address : validate_webhook_host network (codes "a") ≡ err private_host
unfolding service
second_address = refl

abbrev public_network : Resolver
public_network = record { parse_ip = λ h. none; lookup_ip = λ h. some (dotted 93 184 216 34 ∷ []) }

validate_webhook_host-IsPublic_example :
    (is_empty (codes "a") ≡ false)
    × All IsPublic (
        found_addresses
          (public_network.parse_ip (codes "a"))
          (public_network.lookup_ip (codes "a")))
unfolding service
validate_webhook_host-IsPublic_example =
    validate_webhook_host-IsPublic public_network (codes "a") refl

-- Events.
abbrev message : Fields
message =
    field (codes "data")
      (object (field (codes "Info") (object (field (codes "IsFromMe") (boolean true) end)) end)) end
