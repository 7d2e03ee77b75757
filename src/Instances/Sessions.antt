-- ===== src/Instances/Sessions.antt =====
-- The sessions of pkg/whatsmeow/service/whatsmeow.go: the maps that it shares with pkg/instance,
-- and the operations on them. The whatsmeow library is a record of operations on a world `W`, and
-- a client is a number; StartClient, which runs as a goroutine, is a list of what it is given.
use webapp_wago.Base.{
  ℕ, Bool, true, false, not, ◌&&◌, List, [], ◌∷◌, ◌++◌, is_empty, Option, none, some, Result, ok,
  err, ◌==◌, if◌then◌else◌,
}
use webapp_wago.Base.Text.{Text, codes, text_eq}
use webapp_wago.Proxy.{normalize_proxy_protocol}
use webapp_wago.Routing.{subscriptions_of}
use webapp_wago.Instances.{Instance}
use webapp_wago.Instances.Store.{
  Gorm, DbFailure, get_instance_by_id, update_proxy, update_connected,
}

pub record ProxyConfig : Type 0 where
  pub protocol : Text
  pub host : Text
  pub password : Text
  pub port : Text
  pub username : Text

-- The configuration, and `encoding/json` on a proxy; a proxy that is nil is none.
pub record Setting : Type 0 where
  pub proxy_protocol : Text
  pub proxy_host : Text
  pub proxy_port : Text
  pub proxy_username : Text
  pub proxy_password : Text
  pub os_name : Text
  pub client_name : Text
  pub marshal_proxy : Option ProxyConfig → Text
  pub unmarshal_proxy : Text → Option ProxyConfig

-- `receives` is whether a goroutine waits on the kill channel of an instance.
pub record Whatsmeow (W : Type 0) : Type 0 where
  pub is_connected : ℕ → W → Bool
  pub is_logged_in : ℕ → W → Bool
  pub disconnect : ℕ → W → W
  pub logout : ℕ → W → Bool × W
  pub pair_phone : ℕ → Text → W → Option Text × W
  pub remove_event_handler : ℕ → ℕ → W → W
  pub receives : Text → W → Bool

pub record ClientData : Type 0 where
  pub instance_of : Instance
  pub subscriptions : List Text
  pub phone : Text
  pub is_proxy : Bool

-- `MyClient`, with what is changed while it runs.
pub record MyClient : Type 0 where
  pub event_handler_id : ℕ
  pub instance_of : Instance
  pub subscriptions : List Text
  pub webhook_url : Text
  pub rabbitmq_enable : Text
  pub nats_enable : Text
  pub websocket_enable : Text

-- `Values` of `userInfoCache`.
pub record Values : Type 0 where
  pub id : Text
  pub jid : Text
  pub token : Text
  pub events : Text
  pub os_name : Text
  pub proxy : Text

-- A kill channel is only there or not; `signals` are the instances whose channel took a signal.
pub record Sessions (D W : Type 0) : Type 0 where
  pub db : D
  pub clients : Text → Option ℕ
  pub my_clients : Text → Option MyClient
  pub kills : Text → Bool
  pub user_info : Text → Option Values
  pub started : List ClientData
  pub signals : List Text
  pub world : W

pub data Failure (E : Type 0) : Type 0 where
  store_failed : DbFailure E → Failure E
  not_in_runtime : Failure E
  proxy_unreadable : Failure E
  no_session : Failure E
  client_disconnected : Failure E
  already_exists : Failure E
  logout_failed : Failure E
  logout_ignored : Failure E
  no_client : Failure E
  pair_failed : Failure E
  pair_empty : Failure E
  logged_in_already : Failure E
  no_qrcode : Failure E
  bad_qrcode : Failure E
  no_proxy_config : Failure E
  no_proxy_host : Failure E
  no_proxy_port : Failure E

-- `m[k] = v` and `delete(m, k)`.
abbrev pub at_key : {A : Type 0} → Text → A → (Text → A) → Text → A
at_key k v m j = if text_eq k j then v else m j

abbrev pub values_of : Instance → Values
values_of i = record {
  id = i.id;
  jid = i.jid;
  token = i.token;
  events = i.events;
  os_name = i.os_name;
  proxy = i.proxy;
}

-- `if proxyConfig.Host != ""` on what `json.Unmarshal` gives, which is none for an error.
abbrev pub proxied : Option ProxyConfig → Option Bool
proxied none = none
proxied (some p) = some (not (is_empty p.host))

module _ {D E W : Type 0} (g : Gorm D E) (lib : Whatsmeow W) (set : Setting) where
  -- The global proxy as the text that is stored.
  abbrev pub global_proxy : Text
  global_proxy = set.marshal_proxy (
      some (record {
        protocol = normalize_proxy_protocol set.proxy_protocol set.proxy_port;
        host = set.proxy_host;
        password = set.proxy_password;
        port = set.proxy_port;
        username = set.proxy_username;
      }))

  abbrev pub has_global_proxy : Bool
  has_global_proxy =
      not (is_empty set.proxy_host)
      && (not (is_empty set.proxy_port)
          && (not (is_empty set.proxy_username) && not (is_empty set.proxy_password)))

  abbrev pub launch :
      Instance
      → List Text
      → Text
      → Option Bool
      → Sessions D W
      → Result (Failure E) (Unit {0}) × Sessions D W
  launch i subs phone none s = (err proxy_unreadable, s)
  launch i subs phone (some p) s = (
    ok tt,
    record s {
      started =
          s.started
          ++ record { instance_of = i; subscriptions = subs; phone = phone; is_proxy = p } ∷ [];
    },
  )

  -- The rest of `StartInstance` once the proxy is settled.
  abbrev pub start_with : Instance → Sessions D W → Result (Failure E) (Unit {0}) × Sessions D W
  start_with i s =
      launch i (subscriptions_of i.events) []
        (if is_empty i.proxy then some false else proxied (set.unmarshal_proxy i.proxy))
        (record s {
          user_info = at_key i.token (some (values_of i)) s.user_info;
          kills = at_key i.id true s.kills;
        })

  abbrev pub proxy_stored :
      Instance
      → Result (DbFailure E) (Unit {0}) × D
      → Sessions D W
      → Result (Failure E) (Unit {0}) × Sessions D W
  proxy_stored i (err e, d) s = (err (store_failed e), record s { db = d })
  proxy_stored i (ok u, d) s = start_with i (record s { db = d })

  abbrev pub start_found :
      Result (DbFailure E) Instance → Sessions D W → Result (Failure E) (Unit {0}) × Sessions D W
  start_found (err e) s = (err (store_failed e), s)
  start_found (ok i) s =
      if is_empty i.proxy && has_global_proxy
      then proxy_stored (record i { proxy = global_proxy }) (update_proxy g i.id global_proxy s.db)
          s
      else start_with i s

  -- `StartInstance`.
  unfoldable pub start_instance : Text → Sessions D W → Result (Failure E) (Unit {0}) × Sessions D W
  unfolding get_instance_by_id normalize_proxy_protocol subscriptions_of text_eq
  start_instance i s = start_found (get_instance_by_id g i s.db) s

  -- A signal that is sent where a goroutine waits for it.
  abbrev pub signal : Text → Sessions D W → Sessions D W
  signal i s =
      if s.kills i && lib.receives i s.world then record s { signals = s.signals ++ i ∷ [] } else s

  abbrev pub drop_handler : ℕ → Option MyClient → Sessions D W → Sessions D W
  drop_handler c none s = s
  drop_handler c (some m) s =
      if m.event_handler_id == 0
      then s
      else record s { world = lib.remove_event_handler c m.event_handler_id s.world }

  abbrev pub disconnect_if : ℕ → Sessions D W → Sessions D W
  disconnect_if c s =
      if lib.is_connected c s.world then record s { world = lib.disconnect c s.world } else s

  abbrev pub drop_client : Text → Option ℕ → Sessions D W → Sessions D W
  drop_client i none s = s
  drop_client i (some c) s = drop_handler c (s.my_clients i) (disconnect_if c s)

  abbrev pub forget_info : Result (DbFailure E) Instance → Sessions D W → Sessions D W
  forget_info (err e) s = s
  forget_info (ok i) s = record s { user_info = at_key i.token none s.user_info }

  -- Steps 1 and 2 of `ReconnectClient`.
  abbrev pub clean_up : Text → Sessions D W → Sessions D W
  clean_up i s =
      let s' = signal i (drop_client i (s.clients i) s) in
      forget_info (get_instance_by_id g i s'.db) (record s' {
        clients = at_key i none s'.clients;
        my_clients = at_key i none s'.my_clients;
        kills = at_key i false s'.kills;
      })

  abbrev pub restart :
      (Sessions D W → Sessions D W)
      → Text
      → Result (DbFailure E) Instance
      → Sessions D W
      → Result (Failure E) (Unit {0}) × Sessions D W
  restart meanwhile i (err e) s = (err (store_failed e), s)
  restart meanwhile i (ok found) s =
      start_instance i
        (meanwhile (record s { db = (update_connected g i false (codes "Reconnecting") s.db).1 }))

  -- `ReconnectClient`; `meanwhile` is what other goroutines do during its pause.
  unfoldable pub reconnect_client :
      (Sessions D W → Sessions D W)
      → Text
      → Sessions D W
      → Result (Failure E) (Unit {0}) × Sessions D W
  unfolding get_instance_by_id start_instance codes text_eq
  reconnect_client meanwhile i s =
      let s' = clean_up i s in restart meanwhile i (get_instance_by_id g i s'.db) s'

  abbrev pub renewed : Instance → MyClient → MyClient
  renewed i m = record m {
    instance_of = i;
    webhook_url = i.webhook;
    rabbitmq_enable = i.rabbitmq_enable;
    nats_enable = i.nats_enable;
    websocket_enable = i.websocket_enable;
    subscriptions = subscriptions_of i.events;
  }

  abbrev pub settings_found :
      Text
      → Result (DbFailure E) Instance
      → Option MyClient
      → Sessions D W
      → Result (Failure E) (Unit {0}) × Sessions D W
  settings_found key (err e) m s = (err (store_failed e), s)
  settings_found key (ok i) none s = (err not_in_runtime, s)
  settings_found key (ok i) (some m) s = (
    ok tt,
    record s {
      my_clients = at_key key (some (renewed i m)) s.my_clients;
      user_info = at_key i.token (some (values_of i)) s.user_info;
    },
  )

  unfoldable pub update_instance_settings :
      Text → Sessions D W → Result (Failure E) (Unit {0}) × Sessions D W
  unfolding get_instance_by_id subscriptions_of text_eq
  update_instance_settings i s = settings_found i (get_instance_by_id g i s.db) (s.my_clients i) s

  abbrev pub advanced_found :
      Text
      → Result (DbFailure E) Instance
      → Option MyClient
      → Sessions D W
      → Result (Failure E) (Unit {0}) × Sessions D W
  advanced_found key (err e) m s = (err (store_failed e), s)
  advanced_found key (ok i) none s = (err not_in_runtime, s)
  advanced_found key (ok i) (some m) s = (
    ok tt,
    record s { my_clients = at_key key (some (record m { instance_of = i })) s.my_clients },
  )

  unfoldable pub update_instance_advanced_settings :
      Text → Sessions D W → Result (Failure E) (Unit {0}) × Sessions D W
  unfolding get_instance_by_id text_eq
  update_instance_advanced_settings i s =
      advanced_found i (get_instance_by_id g i s.db) (s.my_clients i) s

  -- `ClearInstanceCache`, which never fails.
  unfoldable pub clear_instance_cache : Text → Text → Sessions D W → Sessions D W
  unfolding text_eq
  clear_instance_cache i token s =
      let s' = signal i s in
      record s' {
        user_info = at_key token none s'.user_info;
        my_clients = at_key i none s'.my_clients;
        clients = at_key i none s'.clients;
        kills = at_key i false s'.kills;
      }

  -- `ConnectOnStartup`: an instance that cannot be started is passed over.
  unfoldable pub start_all : List Instance → Sessions D W → Sessions D W
  unfolding start_instance
  start_all [] s = s
  start_all (i ∷ is) s = start_all is (start_instance i.id s).1

  abbrev pub start_listed : Result E (List Instance) → Sessions D W → Sessions D W
  start_listed (err e) s = s
  start_listed (ok is) s = start_all is s

  unfoldable pub connect_on_startup : Text → Sessions D W → Sessions D W
  unfolding start_all
  connect_on_startup client_name s =
      start_listed
        (if is_empty client_name
          then g.find_connected s.db
          else g.find_connected_by_client client_name s.db)
        s
