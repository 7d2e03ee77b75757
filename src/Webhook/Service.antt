-- ===== src/Webhook/Service.antt =====
-- The operations of pkg/webhook/service/webhook_service.go on the webhooks of an instance, with
-- the cache of the lists. An operation runs to its end before the next one starts.
use webapp_wago.Base.{
  ℕ, Bool, not, ◌&&◌, ◌||◌, List, [], ◌∷◌, is_empty, Option, none, some, Result, ok, err, ◌>>◌, leb,
  if◌then◌else◌,
}
use webapp_wago.Base.Text.{Text, codes, text_eq, trim_space}
use webapp_wago.EventTypes.{is_event_type}
use webapp_wago.Webhook.{
  Webhook, WebhookInput, valid_chat_type, to_model, max_webhooks_per_instance,
}
use webapp_wago.Webhook.Hosts.{HostError, Resolver, validate_webhook_host}
use webapp_wago.Webhook.Store.{Repository}

pub record Url : Type 0 where
  pub scheme : Text
  pub host : Text
  pub hostname : Text

pub data Failure (E : Type 0) : Type 0 where
  repo_failed : E → Failure E
  url_missing : Failure E
  url_invalid : Failure E
  host_refused : HostError → Failure E
  chat_type_invalid : Text → Failure E
  event_type_invalid : Text → Failure E
  not_found : Failure E
  limit_reached : Failure E

-- `url.Parse`, the network, and whether `ALLOW_LOCAL_WEBHOOKS` is `true`.
pub record Surroundings : Type 0 where
  pub parse_url : Text → Option Url
  pub network : Resolver
  pub allow_local_webhooks : Bool

abbrev pub good_url : Url → Bool
good_url u =
    (text_eq u.scheme (codes "http") || text_eq u.scheme (codes "https")) && not (is_empty u.host)

abbrev pub check_events : {E : Type 0} → List Text → Result (Failure E) (Unit {0})
check_events [] = ok tt
check_events (ev ∷ evs) =
    let rest = check_events evs in
    if not (is_empty ev) && not (is_event_type ev) then err (event_type_invalid ev) else rest

abbrev pub refuse : {E : Type 0} → Result HostError (Unit {0}) → Result (Failure E) (Unit {0})
refuse (ok u) = ok u
refuse (err e) = err (host_refused e)

abbrev pub check_url : {E : Type 0} → Surroundings → Option Url → Result (Failure E) (Unit {0})
check_url s none = err url_invalid
check_url s (some u) =
    if not (good_url u)
    then err url_invalid
    else if s.allow_local_webhooks
    then ok tt
    else refuse (validate_webhook_host s.network u.hostname)

-- The part of `validate` that comes after the address.
abbrev pub check_filter : {E : Type 0} → WebhookInput → Result (Failure E) (Unit {0})
check_filter w =
    if not (is_empty w.chat_type) && not (valid_chat_type w.chat_type)
    then err (chat_type_invalid w.chat_type)
    else check_events w.events

-- `validate` on a body that is there.
unfoldable pub validate : {E : Type 0} → Surroundings → WebhookInput → Result (Failure E) (Unit {0})
unfolding text_eq codes trim_space is_event_type valid_chat_type validate_webhook_host
validate s w =
    if is_empty (trim_space w.url)
    then err url_missing
    else check_url s (s.parse_url w.url) >> check_filter w

pub record State (D : Type 0) : Type 0 where
  pub db : D
  pub cache : Text → Option (List Webhook)

module _ {D E : Type 0} (r : Repository D E) where
  abbrev pub with_db : D → State D → State D
  with_db d s = record { db = d; cache = s.cache }

  abbrev pub put_cache : Text → List Webhook → State D → State D
  put_cache i ws s = record { db = s.db; cache = λ j. if text_eq i j then some ws else s.cache j }

  abbrev pub reloaded : Text → Result E (List Webhook) → State D → State D
  reloaded i (err e) s = s
  reloaded i (ok ws) s = put_cache i ws s

  -- `Reload`, of which all callers ignore the error.
  unfoldable pub reload : Text → State D → State D
  unfolding text_eq
  reload i s = reloaded i (r.list i s.db) s

  abbrev pub found : Text → Result E Webhook → Result (Failure E) Webhook
  found i (err e) = err (repo_failed e)
  found i (ok w) = if text_eq w.instance_id i then ok w else err not_found

  unfoldable pub get : Text → Text → State D → Result (Failure E) Webhook
  unfolding text_eq
  get i id s = found i (r.get id s.db)

  -- The end of every change: the error of the database, or a reload.
  abbrev pub finish :
      {A : Type 0} → Text → Result E A × D → State D → Result (Failure E) A × State D
  finish i (err e, d) s = (err (repo_failed e), with_db d s)
  finish i (ok a, d) s = (ok a, reload i (with_db d s))

  abbrev pub below_limit : Result E ℕ → Result (Failure E) (Unit {0})
  below_limit (err e) = err (repo_failed e)
  below_limit (ok n) = if leb max_webhooks_per_instance n then err limit_reached else ok tt

  abbrev pub proceed :
      {A : Type 0}
      → Result (Failure E) (Unit {0})
      → State D
      → Result (Failure E) A × State D
      → Result (Failure E) A × State D
  proceed (err e) s k = (err e, s)
  proceed (ok u) s k = k

  unfoldable pub create :
      Surroundings → Text → WebhookInput → State D → Result (Failure E) Webhook × State D
  unfolding validate to_model reload
  create env i w s =
      proceed (validate env w >> below_limit (r.count_by_instance i s.db)) s
        (finish i (r.create (to_model i w) s.db) s)

  abbrev pub renew : Webhook → Webhook → Webhook
  renew cur w = record {
    id = cur.id;
    instance_id = w.instance_id;
    url = w.url;
    enabled = w.enabled;
    events = w.events;
    chat_type = w.chat_type;
    chat_ids = w.chat_ids;
    senders = w.senders;
    chat_names = w.chat_names;
    sender_names = w.sender_names;
    ignore_from_me = w.ignore_from_me;
    rabbitmq_enable = w.rabbitmq_enable;
    websocket_enable = w.websocket_enable;
    nats_enable = w.nats_enable;
    created_at = cur.created_at;
    updated_at = w.updated_at;
  }

  abbrev pub update_found :
      Surroundings
      → Text
      → WebhookInput
      → State D
      → Result (Failure E) Webhook
      → Result (Failure E) Webhook × State D
  update_found env i w s (err e) = (err e, s)
  update_found env i w s (ok cur) =
      let v = renew cur (to_model i w) in proceed (validate env w) s (finish i (r.update v s.db) s)

  unfoldable pub update :
      Surroundings → Text → Text → WebhookInput → State D → Result (Failure E) Webhook × State D
  unfolding get validate to_model reload
  update env i id w s = update_found env i w s (get i id s)

  unfoldable pub delete : Text → Text → State D → Result (Failure E) (Unit {0}) × State D
  unfolding reload
  delete i id s = finish i (r.delete id i s.db) s

  unfoldable pub delete_by_instance : Text → State D → Result (Failure E) (Unit {0}) × State D
  unfolding reload
  delete_by_instance i s = finish i (r.delete_by_instance i s.db) s

  abbrev pub listed : Option (List Webhook) → List Webhook
  listed none = []
  listed (some ws) = ws

  abbrev pub cached_or_loaded : Text → Option (List Webhook) → State D → List Webhook × State D
  cached_or_loaded i (some ws) s = (ws, s)
  cached_or_loaded i none s = (listed ((reload i s).cache i), reload i s)

  unfoldable pub get_cached : Text → State D → List Webhook × State D
  unfolding reload
  get_cached i s = cached_or_loaded i (s.cache i) s
