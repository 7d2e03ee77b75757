-- ===== src/Instances/Service.antt =====
-- pkg/instance/service/instance_service.go. `meanwhile` is what other goroutines do during a pause.
use webapp_wago.Base.{
  ℕ, Bool, true, false, not, ◌||◌, List, [], ◌∷◌, is_empty, select, map, Option, none, some, Result,
  ok, err, if◌then◌else◌,
}
use webapp_wago.Base.Text.{Text, codes, text_eq, join}
use webapp_wago.EventTypes.{all_event_types, is_event_type}
use webapp_wago.Proxy.{normalize_proxy_protocol}
use webapp_wago.Instances.{Instance, AdvancedSettings, no_instance, no_settings}
use webapp_wago.Instances.Store
use webapp_wago.Instances.Store.{
  Gorm, DbFailure, get_instance_by_id, get_instance_by_name, create_row, update, delete_row,
  update_advanced_settings,
}
use webapp_wago.Instances.Sessions.{
  ProxyConfig, Setting, Whatsmeow, Sessions, Failure, store_failed, no_session, client_disconnected,
  already_exists, no_client, pair_failed, pair_empty, at_key, proxied, launch, start_instance,
  reconnect_client, update_instance_settings,
}

pub record CreateStruct : Type 0 where
  pub instance_id : Text
  pub name : Text
  pub token : Text
  pub proxy : Option ProxyConfig
  pub advanced_settings : Option AdvancedSettings

pub record ConnectStruct : Type 0 where
  pub webhook_url : Text
  pub subscribe : List Text
  pub phone : Text
  pub rabbitmq_enable : Text
  pub websocket_enable : Text
  pub nats_enable : Text

abbrev pub normalized : Option ProxyConfig → Option ProxyConfig
normalized none = none
normalized (some p) = some (record p { protocol = normalize_proxy_protocol p.protocol p.port })

-- Create copies six of the seven settings.
abbrev pub copied : Option AdvancedSettings → AdvancedSettings
copied none = no_settings
copied (some a) = record a { ignore_from_me = false }

-- The events of `Connect`.
unfoldable pub subscribed_events : List Text → List Text
unfolding is_event_type text_eq codes
subscribed_events [] = codes "MESSAGE" ∷ []
subscribed_events (e ∷ es) =
    if text_eq e (codes "ALL") then all_event_types else select is_event_type (e ∷ es)

module _ {D E W : Type 0} (g : Gorm D E) (lib : Whatsmeow W) (set : Setting)
    (meanwhile : Sessions D W → Sessions D W) where
  abbrev Done : Type 0 → Type 0
  Done A = Result (Failure E) A × Sessions D W

  abbrev pub stored :
      {A : Type 0} → Result (DbFailure E) A × D → Sessions D W → Result (Failure E) A × Sessions D W
  stored (err e, d) s = (err (store_failed e), record s { db = d })
  stored (ok a, d) s = (ok a, record s { db = d })

  -- `ensureClientConnected`.
  abbrev pub checked_client : Option ℕ → Sessions D W → Result (Failure E) ℕ × Sessions D W
  checked_client none s = (err no_session, s)
  checked_client (some c) s = if lib.is_connected c s.world then (ok c, s) else (err no_session, s)

  abbrev pub after_start :
      Text → Result (Failure E) (Unit {0}) × Sessions D W → Result (Failure E) ℕ × Sessions D W
  after_start i (err e, s) = (err no_session, s)
  after_start i (ok u, s) = let s' = meanwhile s in checked_client (s'.clients i) s'

  abbrev pub ensured : Text → Option ℕ → Sessions D W → Result (Failure E) ℕ × Sessions D W
  ensured i none s = after_start i (start_instance g lib set i s)
  ensured i (some c) s =
      if lib.is_connected c s.world then (ok c, s) else (err client_disconnected, s)

  unfoldable pub ensure_client_connected : Text → Sessions D W → Result (Failure E) ℕ × Sessions D W
  unfolding start_instance
  ensure_client_connected i s = ensured i (s.clients i) s

  abbrev pub with_client :
      {A : Type 0}
      → Result (Failure E) ℕ × Sessions D W
      → (ℕ → Sessions D W → Result (Failure E) A × Sessions D W)
      → Result (Failure E) A × Sessions D W
  with_client (err e, s) k = (err e, s)
  with_client (ok c, s) k = k c s

  -- `Create`.
  abbrev pub new_instance : CreateStruct → Instance
  new_instance body = record no_instance {
    id = body.instance_id;
    name = body.name;
    token = body.token;
    os_name = set.os_name;
    proxy = set.marshal_proxy (normalized body.proxy);
    client_name = set.client_name;
    settings = copied body.advanced_settings;
  }

  abbrev pub create_unless :
      Result (DbFailure E) Instance
      → CreateStruct
      → Sessions D W
      → Result (Failure E) Instance × Sessions D W
  create_unless (ok i) body s = (err already_exists, s)
  create_unless (err e) body s = stored (create_row g (new_instance body) s.db) s

  unfoldable pub create : CreateStruct → Sessions D W → Result (Failure E) Instance × Sessions D W
  unfolding normalize_proxy_protocol
  create body s = create_unless (get_instance_by_name g body.name s.db) body s

  -- `Connect`: the instance with what the body asks for.
  abbrev pub configured : ConnectStruct → Instance → Instance
  configured body i = record i {
    events = join b',' (subscribed_events body.subscribe);
    webhook = body.webhook_url;
    rabbitmq_enable = body.rabbitmq_enable;
    nats_enable = body.nats_enable;
    websocket_enable = body.websocket_enable;
  }

  abbrev pub or_global : Option Bool → Option Bool
  or_global none = none
  or_global (some b) = some (b || not (is_empty set.proxy_host))

  -- Whether a new client uses a proxy; none where its text cannot be read.
  abbrev pub proxy_choice : Text → Option Bool
  proxy_choice proxy =
      if not (is_empty proxy) || not (is_empty set.proxy_host)
      then or_global (proxied (set.unmarshal_proxy proxy))
      else some false

  abbrev pub told :
      Instance
      → Result (Failure E) (Unit {0}) × Sessions D W
      → Result (Failure E) Instance × Sessions D W
  told i (err e, s) = (err e, s)
  told i (ok u, s) = (ok i, s)

  -- A failure to update the running client means that there is none, and a new one is started.
  abbrev pub connect_with :
      ConnectStruct
      → Instance
      → Result (Failure E) (Unit {0}) × Sessions D W
      → Result (Failure E) Instance × Sessions D W
  connect_with body i (ok u, s) = (ok i, s)
  connect_with body i (err e, s) = told i (
      launch g lib set i (subscribed_events body.subscribe) body.phone (proxy_choice i.proxy)
        (record s { kills = at_key i.id true s.kills }))

  abbrev pub connect_stored :
      ConnectStruct
      → Instance
      → Result (DbFailure E) (Unit {0}) × D
      → Sessions D W
      → Result (Failure E) Instance × Sessions D W
  connect_stored body i (err e, d) s = (err (store_failed e), record s { db = d })
  connect_stored body i (ok u, d) s =
      connect_with body i (update_instance_settings g lib set i.id (record s { db = d }))

  unfoldable pub connect :
      ConnectStruct → Instance → Sessions D W → Result (Failure E) Instance × Sessions D W
  unfolding join subscribed_events update_instance_settings text_eq
  connect body i s = connect_stored body (configured body i) (update g (configured body i) s.db) s

  -- `Reconnect`.
  unfoldable pub reconnect : Text → Sessions D W → Result (Failure E) (Unit {0}) × Sessions D W
  unfolding ensure_client_connected reconnect_client
  reconnect i s =
      with_client (ensure_client_connected i s) (λ c s'. reconnect_client g lib set meanwhile i s')

  -- `Status`: whether the client is logged in, which is reported twice.
  unfoldable pub status : Instance → Sessions D W → Result (Failure E) Bool × Sessions D W
  unfolding ensure_client_connected
  status i s =
      with_client (ensure_client_connected i.id s) (λ c s'. (ok (lib.is_logged_in c s'.world), s'))

  -- `Pair`.
  abbrev pub paired : Option Text × W → Sessions D W → Result (Failure E) Text × Sessions D W
  paired (none, w) s = (err pair_failed, record s { world = w })
  paired (some code, w) s =
      if is_empty code
      then (err pair_empty, record s { world = w })
      else (ok code, record s { world = w })

  abbrev pub pair_with : Text → Option ℕ → Sessions D W → Result (Failure E) Text × Sessions D W
  pair_with phone none s = (err no_client, s)
  pair_with phone (some c) s = paired (lib.pair_phone c phone s.world) s

  unfoldable pub pair : Text → Text → Sessions D W → Result (Failure E) Text × Sessions D W
  pair phone i s = pair_with phone (s.clients i) s

  -- What `GetAll` and `Info` show of an instance.
  abbrev pub logged_in : Option ℕ → W → Bool
  logged_in none w = false
  logged_in (some c) w = lib.is_logged_in c w

  abbrev pub shown : Sessions D W → Instance → Instance
  shown s i = record i { connected = logged_in (s.clients i.id) s.world; proxy = [] }

  abbrev pub shown_all :
      Sessions D W → Result E (List Instance) → Result (Failure E) (List Instance)
  shown_all s (err e) = err (store_failed (Store.db_failed e))
  shown_all s (ok is) = ok (map (shown s) is)

  unfoldable pub get_all : Sessions D W → Result (Failure E) (List Instance)
  get_all s = shown_all s (g.find_by_client set.client_name s.db)

  abbrev pub shown_one : Sessions D W → Result (DbFailure E) Instance → Result (Failure E) Instance
  shown_one s (err e) = err (store_failed e)
  shown_one s (ok i) = ok (shown s i)

  unfoldable pub info : Text → Sessions D W → Result (Failure E) Instance
  unfolding get_instance_by_id
  info i s = shown_one s (get_instance_by_id g i s.db)
