-- ===== src/Instances/Tests.antt =====
-- pkg/instance and the sessions of pkg/whatsmeow/service on a table of one row, and the theorems
-- about them.
use webapp_wago.Base.{
  Bool, true, false, List, [], ◌∷◌, is_empty, Option, none, some, Result, ok, err, ◌≡◌, refl, subst,
  ok-injective,
}
use webapp_wago.Base.Text.{
  Text, codes, text_eq, split, split_first, join, to_lower, trim_space, equal_fold,
}
use webapp_wago.Base.Number.{atoi}
use webapp_wago.EventTypes.{is_event_type}
use webapp_wago.Proxy.{normalize_proxy_protocol}
use webapp_wago.Routing.{find, subscribe, subscriptions_of, contains}
use webapp_wago.Routing.Subscribing.{IsName}
use webapp_wago.Instances.{Instance, no_instance}
use webapp_wago.Instances.Store.{
  Gorm, lift, get_instance_by_id, update, delete_row, update_advanced_settings,
}
use webapp_wago.Instances.Sessions.{
  ProxyConfig, Setting, Whatsmeow, Sessions, already_exists, logged_in_already, start_instance,
  update_instance_settings, update_instance_advanced_settings, clear_instance_cache,
  reconnect_client,
}
use webapp_wago.Instances.Service.{
  ConnectStruct, subscribed_events, configured, create, connect, connect_with,
  ensure_client_connected, reconnect, status, pair, get_all, info,
}
use webapp_wago.Instances.Changes.{
  SetProxyStruct, delete, set_proxy, set_proxy_from_struct, remove_proxy, change_settings, get_qr,
}
use webapp_wago.Instances.Devices.{latest, session_of, device_search, force_update_jid}
use webapp_wago.Instances.Ending.{logout, disconnect, force_reconnect, IsUp, force_reconnect-IsUp}
use webapp_wago.Instances.Subscribed.{chosen, connect-chosen}
use webapp_wago.Instances.Cleaning.{IsDeleted, delete-IsDeleted}
use webapp_wago.Instances.Proxies.{stored_config, with_config}

instances : Unit {0}
unfolding text_eq codes split split_first join to_lower trim_space equal_fold atoi is_event_type
    normalize_proxy_protocol find subscribe subscriptions_of contains get_instance_by_id delete_row
    update_advanced_settings start_instance update_instance_settings
    update_instance_advanced_settings clear_instance_cache reconnect_client subscribed_events create
    connect ensure_client_connected reconnect status pair get_all info delete set_proxy
    set_proxy_from_struct remove_proxy change_settings get_qr latest session_of device_search
    force_update_jid logout disconnect force_reconnect
instances = tt

abbrev found_if : Bool → Instance → Result (Unit {0}) Instance
found_if true i = ok i
found_if false i = err tt

-- A table of one row.
abbrev one_row : Gorm Instance (Unit {0})
one_row = record {
  is_uuid = λ i. true;
  create = λ i d. (ok i, i);
  first_by_token = λ t d. found_if (text_eq d.token t) d;
  first_by_name = λ n d. found_if (text_eq d.name n) d;
  first_by_id = λ i d. found_if (text_eq d.id i) d;
  save = λ i d. (ok tt, i);
  set_connected = λ i b r d. (ok tt, record d { connected = b; disconnect_reason = r });
  set_proxy = λ i p d. (ok tt, record d { proxy = p });
  set_jid = λ i j d. (ok tt, record d { jid = j });
  set_settings = λ i a d. (ok tt, record d { settings = a });
  find_by_client = λ c d. ok (d ∷ []);
  find_connected = λ d. ok (d ∷ []);
  find_connected_by_client = λ c d. ok (d ∷ []);
  delete_labels = λ i d. (ok tt, d);
  delete_messages = λ i d. (ok tt, d);
  delete_instance = λ i d. (ok tt, no_instance);
}

-- Every client is connected and logged in.
abbrev library : Whatsmeow (Unit {0})
library = record {
  is_connected = λ c w. true;
  is_logged_in = λ c w. true;
  disconnect = λ c w. w;
  logout = λ c w. (true, w);
  pair_phone = λ c p w. (some (codes "1234"), w);
  remove_event_handler = λ c h w. w;
  receives = λ i w. true;
}

abbrev body : SetProxyStruct
body = record {
  protocol = codes "http";
  host = codes "p.example";
  port = codes "8080";
  username = [];
  password = [];
}

abbrev decoded : ProxyConfig
decoded = record {
  protocol = codes "http";
  host = codes "p.example";
  password = [];
  port = codes "8080";
  username = [];
}

abbrev encode : Option ProxyConfig → Text
encode none = codes "null"
encode (some p) = codes "{}"

abbrev decode : Text → Option ProxyConfig
decode [] = none
decode (c ∷ s) = some decoded

abbrev setting : Setting
setting = record {
  proxy_protocol = [];
  proxy_host = codes "g.example";
  proxy_port = codes "80";
  proxy_username = [];
  proxy_password = [];
  os_name = codes "linux";
  client_name = codes "c";
  marshal_proxy = encode;
  unmarshal_proxy = decode;
}

abbrev row : Instance
row = record no_instance { id = codes "i"; name = codes "n"; token = codes "t" }

-- No session, and what a new one leaves behind while someone waits.
abbrev idle : Sessions Instance (Unit {0})
idle = record {
  db = row;
  clients = λ i. none;
  my_clients = λ i. none;
  kills = λ i. false;
  user_info = λ t. none;
  started = [];
  signals = [];
  world = tt;
}

abbrev meanwhile : Sessions Instance (Unit {0}) → Sessions Instance (Unit {0})
meanwhile s = record s { clients = λ i. some 1 }

abbrev want : ConnectStruct
want = record {
  webhook_url = [];
  subscribe = codes "CALL" ∷ codes "nonsense" ∷ codes "GROUP" ∷ [];
  phone = [];
  rabbitmq_enable = [];
  websocket_enable = [];
  nats_enable = [];
}

abbrev proxied_row : Instance
proxied_row = record row { proxy = codes "{}" }

stored_events :
    (configured one_row library setting meanwhile want proxied_row).events ≡ codes "CALL,GROUP"
unfolding instances
stored_events = refl

no_second :
    (create one_row library setting meanwhile
      (record {
        instance_id = [];
        name = codes "n";
        token = [];
        proxy = none;
        advanced_settings = none;
      })
      idle).0
    ≡ err already_exists
unfolding instances
no_second = refl

connected :
    (connect one_row library setting meanwhile want proxied_row idle).0
    ≡ ok (configured one_row library setting meanwhile want proxied_row)
unfolding instances
connected = refl

group-IsName : IsName (codes "GROUP")
unfolding instances
group-IsName = refl

connect-chosen_example :
    let i : Instance = configured one_row library setting meanwhile want proxied_row in
    (contains (subscriptions_of i.events) (codes "GROUP") ≡ chosen want.subscribe (codes "GROUP"))
    × ((d : Instance) × (update one_row i idle.db ≡ (ok tt, d))
        × (connect one_row library setting meanwhile want proxied_row idle
            ≡ connect_with one_row library setting meanwhile want i
                (update_instance_settings one_row library setting i.id (record idle { db = d }))))
connect-chosen_example =
    connect-chosen one_row library setting meanwhile want proxied_row
      (configured one_row library setting meanwhile want proxied_row) idle (codes "GROUP") connected
      group-IsName

delete-IsDeleted_example :
    IsDeleted one_row library setting meanwhile
      (codes "i")
      idle
      (delete one_row library setting meanwhile (codes "i") idle)
delete-IsDeleted_example = delete-IsDeleted one_row library setting meanwhile (codes "i") idle

listed :
    get_all one_row library setting meanwhile idle
    ≡ ok (record row { connected = false; proxy = [] } ∷ [])
unfolding instances
listed = refl

has_host : is_empty setting.proxy_host ≡ false
unfolding instances
has_host = refl

-- What the table gives back is its row, under the identifier that was asked for.
row_found :
    (id : Text) (d i : Instance)
    → get_instance_by_id one_row id d ≡ ok i
    → (d ≡ i) × (text_eq i.id id ≡ true)
unfolding get_instance_by_id
row_found id d i = of (text_eq d.id id) refl
  where
    of :
        (b : Bool)
        → text_eq d.id id ≡ b
        → lift (found_if b d) ≡ ok i
        → (d ≡ i) × (text_eq i.id id ≡ true)
    of false q e = cc
    of true q e =
        let same : d ≡ i = ok-injective e in
        (same, subst (λ (k : Instance). text_eq k.id id ≡ true) same q)

saved_row_found :
    (i d : Instance)
    → get_instance_by_id one_row (codes "i") d ≡ ok i
    → (update one_row (with_config one_row library setting meanwhile body i) d).0 ≡ ok tt
    → get_instance_by_id one_row (codes "i") (with_config one_row library setting meanwhile body i)
      ≡ ok (with_config one_row library setting meanwhile body i)
unfolding get_instance_by_id
saved_row_found i d e e' = rw ((row_found (codes "i") d i e).1) refl

not_empty : is_empty (encode (some (stored_config body))) ≡ false
unfolding instances
not_empty = refl

decodes : decode (encode (some (stored_config body))) ≡ some (stored_config body)
unfolding instances
decodes = refl

proxy_set :
    (set_proxy_from_struct one_row library setting meanwhile (codes "i") body idle).0 ≡ ok tt
unfolding instances
proxy_set = refl

-- The devices of a number, as the query gives them.
abbrev devices : Text → Option (List Text)
devices q = some (codes "54:2@s" ∷ codes "54@s" ∷ codes "54:11@s" ∷ codes "54:3@s" ∷ [])

latest_device :
    (force_update_jid one_row devices (codes "i") (codes "54") row).1.jid ≡ codes "54:11@s"
unfolding instances
latest_device = refl

reconnected :
    (force_reconnect one_row library setting meanwhile devices
      (codes "i")
      (codes "54")
      (record idle { db = proxied_row })).0
    ≡ ok tt
unfolding instances
reconnected = refl

force_reconnect-IsUp_example :
    let s : Sessions Instance (Unit {0}) = record idle { db = proxied_row } in
    (x : Instance) × (get_instance_by_id one_row
        (codes "i")
        (force_update_jid one_row devices (codes "i") (codes "54") s.db).1
      ≡ ok x)
    × IsUp one_row library setting meanwhile devices x.id
        (force_reconnect one_row library setting meanwhile devices (codes "i") (codes "54") s).1
force_reconnect-IsUp_example =
    force_reconnect-IsUp one_row library setting meanwhile devices (codes "i") (codes "54")
      (record idle { db = proxied_row }) reconnected

ended :
    (disconnect one_row library setting meanwhile row (record idle { clients = λ i. some 1 }))
    ≡ none
unfolding instances
ended = refl

qr_code :
    (get_qr one_row library setting meanwhile
      (codes "i")
      (record idle { clients = λ i. some 1; db = proxied_row })).0
    ≡ err logged_in_already
unfolding instances
qr_code = refl

-- A caller with the token of the row.
abbrev with_token : Instance
with_token = record row { token = codes "t" }
