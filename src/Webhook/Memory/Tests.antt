-- ===== src/Webhook/Memory/Tests.antt =====
-- The operations, the names and the dispatch of pkg/webhook/service on a table in memory, and the
-- theorems about them.
use webapp_wago.Producers.{is_on}
use webapp_wago.Producers.Nats.{NatsState, new_nats}
use webapp_wago.Webhook.Fanout.{run_nats, run_nats-deliveries}
use webapp_wago.Base.{
  ◌≤◌, true, false, ◌&&◌, is_empty, List, [], ◌∷◌, none, some, length, map, select, ◌≡◌, refl,
  arith,
}
use webapp_wago.Base.Text.{Text, codes, text_eq, to_lower, equal_fold, has_suffix, trim_space}
use webapp_wago.Json.{get, pick_string}
use webapp_wago.EventTypes.{is_event_type}
use webapp_wago.Webhook.{Webhook, WebhookInput, valid_chat_type, to_model}
use webapp_wago.Webhook.Glob.{glob}
use webapp_wago.Webhook.Filter.{matches_filter, match_pattern_allowlist, webhook_needs_names}
use webapp_wago.Webhook.Hosts.{dotted, check, check_all, validate_webhook_host}
use webapp_wago.Webhook.Names.{
  NameResolver, NameState, Lookup, group, contact, lookups, invalidate_names,
}
use webapp_wago.Webhook.Store.{IsListing, rows_of}
use webapp_wago.Webhook.Service.{State, Surroundings, get_cached, create, validate, reload}
use webapp_wago.Webhook.Steps.{Op, make, change, drop_one, use_cache, step, steps}
use webapp_wago.Webhook.Memory.{memory, in_order, memory-Laws}
use webapp_wago.Webhook.Limits.{step_isolated, steps_limited}
use webapp_wago.Webhook.Cache.{steps_cached}
use webapp_wago.Webhook.Dispatch.{
  Transports, to_nats, Call, event_of, deliveries, names, fire, dispatch,
}
use webapp_wago.Webhook.Outcome.{urls_on, wanted, dispatch-urls_on}
use webapp_wago.Webhook.Meta.{extract_event_meta}

service : Unit {0}
unfolding text_eq codes to_lower equal_fold has_suffix trim_space is_event_type valid_chat_type
    to_model get pick_string glob match_pattern_allowlist matches_filter webhook_needs_names
    validate_webhook_host lookups invalidate_names step steps get_cached create validate reload
    deliveries names fire dispatch extract_event_meta check check_all
service = tt

-- A webhook for the messages of groups.
abbrev input : WebhookInput
input = record {
  url = codes " https://a.example/x";
  enabled = none;
  events = codes "MESSAGE" ∷ [];
  chat_type = [];
  chat_ids = codes "*@g.us" ∷ [];
  senders = [];
  chat_names = codes "Harness*" ∷ [];
  sender_names = [];
  ignore_from_me = some false;
  rabbitmq_enable = none;
  websocket_enable = none;
  nats_enable = some true;
}

-- A network and a table at the start.
abbrev env : Surroundings
env = record {
  parse_url = λ u.
      some
        (record { scheme = codes "https"; host = codes "a.example"; hostname = codes "a.example" });
  network = record { parse_ip = λ h. none; lookup_ip = λ h. some (dotted 93 184 216 34 ∷ []) };
  allow_local_webhooks = false;
}

abbrev start : State (List Webhook)
start = record { db = []; cache = λ j. none }

abbrev ops : List Op
ops =
    make (codes "i") input
    ∷ make (codes "j") input
    ∷ use_cache (codes "j")
    ∷ drop_one (codes "i") (codes "kk")
    ∷ change (codes "j") (codes "kk") input
    ∷ []

two_rows : map (λ w. w.instance_id) (steps memory env ops start).db ≡ codes "i" ∷ codes "j" ∷ []
unfolding service
two_rows = refl

-- The webhook of `j`, of which the client of `i` names the identity.
abbrev two : State (List Webhook)
two = steps memory env (make (codes "i") input ∷ make (codes "j") input ∷ []) start

abbrev foreign : Op
foreign = change (codes "i") (codes "kk") input

one_for_j : map (λ w. w.id) (rows_of in_order (codes "j") two.db) ≡ codes "kk" ∷ []
unfolding service
one_for_j = refl

step_isolated_example :
    rows_of in_order (codes "j") (step memory env foreign two).db
    ≡ rows_of in_order (codes "j") two.db
unfolding service
step_isolated_example = step_isolated memory in_order memory-Laws env foreign two (codes "j") refl

steps_limited_example : length (rows_of in_order (codes "j") (steps memory env ops start).db) ≤ 20
steps_limited_example =
    steps_limited memory in_order memory-Laws env ops start (λ j. omega arith) (codes "j")

steps_cached_example :
    let s : State (List Webhook) = steps memory env ops start in
    IsListing (get_cached memory (codes "j") s).0 (rows_of in_order (codes "j") s.db)
steps_cached_example =
    steps_cached memory in_order memory-Laws env ops [] (codes "j") (λ j d. (_, refl))

-- Names and deliveries.
abbrev resolver : NameResolver
resolver = record {
  group_names = λ n i. some ((codes "12@g.us", codes "Harness A") ∷ []);
  contact_names = λ n i. some [];
}

abbrev nothing_known : NameState
nothing_known = record { name_cache = λ i. none; calls = 0 }

abbrev some_lookups : List Lookup
some_lookups = group (codes "12@g.us") ∷ contact (codes "54") ∷ group (codes "3") ∷ []

abbrev call : Call
call = record {
  instance_id = codes "j";
  event_type = codes "MESSAGE";
  chat_jid = codes "12@g.us";
  sender_jid = codes "54";
  is_from_me = false;
  json_data = codes "{}";
}

abbrev transports : Transports
transports = record { rabbitmq = true; websocket = false; nats = true }

sent_to_nats :
    urls_on to_nats
      (dispatch memory (some resolver) transports call (steps memory env ops start) nothing_known).0
    ≡ codes "https://a.example/x" ∷ []
unfolding service
sent_to_nats = refl

dispatch-urls_on_example :
    let s : State (List Webhook) = steps memory env ops start in
    let (chat, sender, st) = names (some resolver) call nothing_known in
    (ws : List Webhook) × IsListing ws (rows_of in_order (codes "j") s.db)
    × (urls_on to_nats (dispatch memory (some resolver) transports call s nothing_known).0
        ≡ map
            (λ w. w.url)
            (select
              (λ w. matches_filter w (event_of call chat sender) && wanted to_nats transports w)
              ws))
dispatch-urls_on_example =
    dispatch-urls_on memory in_order memory-Laws env ops [] (some resolver) transports call
      nothing_known to_nats (λ j d. (_, refl))

abbrev global : Text
global = codes "https://all.example"

not_empty : is_empty global ≡ false
unfolding service
not_empty = refl

has_url : is_empty (to_model (codes "j") input).url ≡ false
unfolding service
has_url = refl

no_word : is_on (to_model (codes "j") input).url ≡ false
unfolding service
no_word = refl

abbrev nats : NatsState (Unit {0})
nats = new_nats (some (λ m w. (true, w))) true [] tt

run_nats-deliveries_example :
    run_nats (deliveries transports call [] [] (to_model (codes "j") input ∷ [])) nats ≡ nats
run_nats-deliveries_example =
    run_nats-deliveries transports call [] [] (to_model (codes "j") input ∷ []) nats (no_word, tt)
