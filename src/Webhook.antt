-- ===== src/Webhook.antt =====
-- pkg/webhook: the model of a webhook, and what a client sends to make or change one.
pub mod Glob
pub mod Pattern
pub mod Filter
pub mod Firing
pub mod Affix
pub mod Allowlist
pub mod Hosts
pub mod Blocking
pub mod Store
pub mod Names
pub mod Fetches
pub mod Service
pub mod Steps
pub mod Limits
pub mod Cache
pub mod Dispatch
pub mod Outcome
pub mod Fanout
mod Memory
pub mod Meta
mod Tests
use webapp_wago.Base.{
  ℕ, Bool, true, false, ◌||◌, List, [], ◌∷◌, Option, none, some, value_or, is_empty, if◌then◌else◌,
}
use webapp_wago.Base.Text.{Text, codes, text_eq, trim_space}

abbrev pub chat_type_any : Text
chat_type_any = codes "any"

abbrev pub chat_type_group : Text
chat_type_group = codes "group"

abbrev pub chat_type_individual : Text
chat_type_individual = codes "individual"

abbrev pub max_webhooks_per_instance : ℕ
max_webhooks_per_instance = 20

pub record Webhook : Type 0 where
  pub id : Text
  pub instance_id : Text
  pub url : Text
  pub enabled : Bool
  pub events : List Text
  pub chat_type : Text
  pub chat_ids : List Text
  pub senders : List Text
  pub chat_names : List Text
  pub sender_names : List Text
  pub ignore_from_me : Bool
  pub rabbitmq_enable : Bool
  pub websocket_enable : Bool
  pub nats_enable : Bool
  pub created_at : ℕ
  pub updated_at : ℕ

unfoldable pub valid_chat_type : Text → Bool
unfolding text_eq codes
valid_chat_type t =
    text_eq t chat_type_any || text_eq t chat_type_group || text_eq t chat_type_individual

-- A pointer to a flag is `none` where the client leaves the field out.
pub record WebhookInput : Type 0 where
  pub url : Text
  pub enabled : Option Bool
  pub events : List Text
  pub chat_type : Text
  pub chat_ids : List Text
  pub senders : List Text
  pub chat_names : List Text
  pub sender_names : List Text
  pub ignore_from_me : Option Bool
  pub rabbitmq_enable : Option Bool
  pub websocket_enable : Option Bool
  pub nats_enable : Option Bool

-- `toModel`: the identity and the times are left to the database.
unfoldable pub to_model : Text → WebhookInput → Webhook
unfolding trim_space codes
to_model instance_id w = record {
  id = [];
  instance_id = instance_id;
  url = trim_space w.url;
  enabled = value_or w.enabled true;
  events = w.events;
  chat_type = if is_empty w.chat_type then chat_type_any else w.chat_type;
  chat_ids = w.chat_ids;
  senders = w.senders;
  chat_names = w.chat_names;
  sender_names = w.sender_names;
  ignore_from_me = value_or w.ignore_from_me true;
  rabbitmq_enable = value_or w.rabbitmq_enable false;
  websocket_enable = value_or w.websocket_enable false;
  nats_enable = value_or w.nats_enable false;
  created_at = 0;
  updated_at = 0;
}
