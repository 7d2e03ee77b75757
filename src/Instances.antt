-- ===== src/Instances.antt =====
-- pkg/instance: the instances, each a WhatsApp account. Here its model, instance_model.go.
pub mod Store
pub mod Sessions
pub mod Service
pub mod Changes
pub mod Devices
pub mod Ending
pub mod Subscribed
pub mod Cleaning
pub mod Proxies
pub mod Showing
mod Tests
use webapp_wago.Base.{ℕ, Bool, false, []}
use webapp_wago.Base.Text.{Text}

pub record AdvancedSettings : Type 0 where
  pub always_online : Bool
  pub reject_call : Bool
  pub msg_reject_call : Text
  pub read_messages : Bool
  pub ignore_groups : Bool
  pub ignore_status : Bool
  pub ignore_from_me : Bool

-- `Instance`, with the fields of its advanced settings as one record.
pub record Instance : Type 0 where
  pub id : Text
  pub name : Text
  pub token : Text
  pub webhook : Text
  pub rabbitmq_enable : Text
  pub websocket_enable : Text
  pub nats_enable : Text
  pub jid : Text
  pub qrcode : Text
  pub connected : Bool
  pub expiration : ℕ
  pub disconnect_reason : Text
  pub events : Text
  pub os_name : Text
  pub proxy : Text
  pub client_name : Text
  pub created_at : ℕ
  pub settings : AdvancedSettings

-- The zero values of Go.
abbrev pub no_settings : AdvancedSettings
no_settings = record {
  always_online = false;
  reject_call = false;
  msg_reject_call = [];
  read_messages = false;
  ignore_groups = false;
  ignore_status = false;
  ignore_from_me = false;
}

abbrev pub no_instance : Instance
no_instance = record {
  id = [];
  name = [];
  token = [];
  webhook = [];
  rabbitmq_enable = [];
  websocket_enable = [];
  nats_enable = [];
  jid = [];
  qrcode = [];
  connected = false;
  expiration = 0;
  disconnect_reason = [];
  events = [];
  os_name = [];
  proxy = [];
  client_name = [];
  created_at = 0;
  settings = no_settings;
}
