-- ===== src/Instances/Changes.antt =====
-- pkg/instance/service/instance_service.go: the removal of an instance, its proxy, its settings
-- and its QR code.
use webapp_wago.Base.{
  ℕ, Bool, true, false, List, [], ◌∷◌, is_empty, Option, none, some, Result, ok, err, if◌then◌else◌,
}
use webapp_wago.Base.Text.{Text, text_eq, split}
use webapp_wago.Proxy.{normalize_proxy_protocol}
use webapp_wago.Instances.{Instance, AdvancedSettings}
use webapp_wago.Instances.Store.{
  Gorm, DbFailure, get_instance_by_id, update, delete_row, update_advanced_settings,
}
use webapp_wago.Instances.Sessions.{
  ProxyConfig, Setting, Whatsmeow, Sessions, Failure, store_failed, logged_in_already, no_qrcode,
  bad_qrcode, no_proxy_config, no_proxy_host, no_proxy_port, at_key, start_instance,
  update_instance_advanced_settings, clear_instance_cache,
}

pub record SetProxyStruct : Type 0 where
  pub protocol : Text
  pub host : Text
  pub port : Text
  pub username : Text
  pub password : Text

pub record QrcodeStruct : Type 0 where
  pub qrcode : Text
  pub code : Text

abbrev pub proxy_of : SetProxyStruct → ProxyConfig
proxy_of b = record {
  protocol = b.protocol;
  host = b.host;
  password = b.password;
  port = b.port;
  username = b.username;
}

module _ {D E W : Type 0} (g : Gorm D E) (lib : Whatsmeow W) (set : Setting)
    (meanwhile : Sessions D W → Sessions D W) where
  -- `Delete`: the client is logged out and disconnected, and what is kept of it goes.
  abbrev pub leave : Option ℕ → W → W
  leave none w = w
  leave (some c) w =
      if lib.is_connected c w
      then (if lib.is_logged_in c w
          then lib.disconnect c (lib.logout c w).1
          else lib.disconnect c w)
      else w

  abbrev pub erase : Instance → Sessions D W → Sessions D W
  erase i s = clear_instance_cache g lib set i.id i.token (record s {
    world = leave (s.clients i.id) s.world;
    clients = at_key i.id none s.clients;
    kills = at_key i.id false s.kills;
  })

  abbrev pub erased :
      Result (DbFailure E) (Unit {0}) × D
      → Sessions D W
      → Result (Failure E) (Unit {0}) × Sessions D W
  erased (err e, d) s = (err (store_failed e), record s { db = d })
  erased (ok u, d) s = (ok tt, record s { db = d })

  abbrev pub delete_found :
      Text
      → Result (DbFailure E) Instance
      → Sessions D W
      → Result (Failure E) (Unit {0}) × Sessions D W
  delete_found id (err e) s = (err (store_failed e), s)
  delete_found id (ok i) s = let s' = erase i s in erased (delete_row g id s'.db) s'

  unfoldable pub delete : Text → Sessions D W → Result (Failure E) (Unit {0}) × Sessions D W
  unfolding get_instance_by_id clear_instance_cache delete_row text_eq
  delete id s = delete_found id (get_instance_by_id g id s.db) s

  -- The end of `SetProxy` and `RemoveProxy`; where it succeeds, a goroutine runs `Reconnect`.
  abbrev pub save_proxy :
      Text → Instance → Sessions D W → Result (Failure E) (Unit {0}) × Sessions D W
  save_proxy proxy i s = erased (update g (record i { proxy = proxy }) s.db) s

  abbrev pub proxy_checked :
      Option ProxyConfig → Instance → Sessions D W → Result (Failure E) (Unit {0}) × Sessions D W
  proxy_checked none i s = (err no_proxy_config, s)
  proxy_checked (some p) i s =
      if is_empty p.host
      then (err no_proxy_host, s)
      else if is_empty p.port
      then (err no_proxy_port, s)
      else save_proxy
          (set.marshal_proxy
            (some (record p { protocol = normalize_proxy_protocol p.protocol p.port })))
          i s

  abbrev pub proxy_found :
      (Instance → Sessions D W → Result (Failure E) (Unit {0}) × Sessions D W)
      → Result (DbFailure E) Instance
      → Sessions D W
      → Result (Failure E) (Unit {0}) × Sessions D W
  proxy_found change (err e) s = (err (store_failed e), s)
  proxy_found change (ok i) s = change i s

  unfoldable pub set_proxy :
      Text → Option ProxyConfig → Sessions D W → Result (Failure E) (Unit {0}) × Sessions D W
  unfolding get_instance_by_id normalize_proxy_protocol
  set_proxy id p s = proxy_found (proxy_checked p) (get_instance_by_id g id s.db) s

  -- `SetProxyFromStruct` on a body that is there.
  unfoldable pub set_proxy_from_struct :
      Text → SetProxyStruct → Sessions D W → Result (Failure E) (Unit {0}) × Sessions D W
  unfolding set_proxy
  set_proxy_from_struct id b s = set_proxy id (some (proxy_of b)) s

  unfoldable pub remove_proxy : Text → Sessions D W → Result (Failure E) (Unit {0}) × Sessions D W
  unfolding get_instance_by_id
  remove_proxy id s = proxy_found (save_proxy []) (get_instance_by_id g id s.db) s

  abbrev pub settings_saved :
      Text
      → Result (DbFailure E) (Unit {0}) × D
      → Sessions D W
      → Result (Failure E) (Unit {0}) × Sessions D W
  settings_saved id (err e, d) s = (err (store_failed e), record s { db = d })
  settings_saved id (ok u, d) s =
      (ok tt, (update_instance_advanced_settings g lib set id (record s { db = d })).1)

  -- `UpdateAdvancedSettings`: that there is no running client is no failure.
  unfoldable pub change_settings :
      Text → AdvancedSettings → Sessions D W → Result (Failure E) (Unit {0}) × Sessions D W
  unfolding update_advanced_settings update_instance_advanced_settings
  change_settings id a s = settings_saved id (update_advanced_settings g id a s.db) s

  -- `GetQr`: the two parts of the code.
  abbrev pub parts_of : List Text → Result (Failure E) QrcodeStruct
  parts_of (q ∷ c ∷ rest) = ok (record { qrcode = q; code = c })
  parts_of _ = err bad_qrcode

  abbrev pub second_look : Result (DbFailure E) Instance → Result (Failure E) QrcodeStruct
  second_look (err e) = err (store_failed e)
  second_look (ok i) = if is_empty i.qrcode then err no_qrcode else parts_of (split b'|' i.qrcode)

  abbrev pub first_look :
      Result (DbFailure E) Instance → Sessions D W → Result (Failure E) QrcodeStruct × Sessions D W
  first_look (err e) s = (err (store_failed e), s)
  first_look (ok i) s =
      if is_empty i.qrcode
      then (let s' = meanwhile s in (second_look (get_instance_by_id g i.id s'.db), s'))
      else (parts_of (split b'|' i.qrcode), s)

  abbrev pub is_logged : Option ℕ → W → Bool
  is_logged none w = false
  is_logged (some c) w = lib.is_logged_in c w

  abbrev pub after_start :
      Text
      → Result (Failure E) (Unit {0}) × Sessions D W
      → Result (Failure E) QrcodeStruct × Sessions D W
  after_start id (err e, s) = (err e, s)
  after_start id (ok u, s) =
      let s' = meanwhile s in
      if is_logged (s'.clients id) s'.world
      then (err logged_in_already, s')
      else first_look (get_instance_by_id g id s'.db) s'

  abbrev pub is_absent : Option ℕ → W → Bool
  is_absent none w = true
  is_absent (some c) w = lib.is_logged_in c w

  unfoldable pub get_qr : Text → Sessions D W → Result (Failure E) QrcodeStruct × Sessions D W
  unfolding get_instance_by_id start_instance split
  get_qr id s =
      if is_absent (s.clients id) s.world
      then after_start id (start_instance g lib set id s)
      else first_look (get_instance_by_id g id s.db) s
