-- ===== src/Instances/Ending.antt =====
-- Disconnect, Logout and ForceReconnect of pkg/instance/service/instance_service.go.
use webapp_wago.Base.{
  ℕ, Bool, true, false, ◌&&◌, List, [], ◌∷◌, ◌++◌, Option, none, some, Result, ok, err,
  if◌then◌else◌, ◌≡◌, refl,
}
use webapp_wago.Base.Text.{Text, text_eq, split}
use webapp_wago.Instances.{Instance}
use webapp_wago.Instances.Store.{Gorm, DbFailure, get_instance_by_id, update}
use webapp_wago.Instances.Sessions.{
  Setting, Whatsmeow, Sessions, Failure, store_failed, proxy_unreadable, logout_failed,
  logout_ignored, at_key, launch,
}
use webapp_wago.Instances.Service.{ensure_client_connected, with_client, proxy_choice}
use webapp_wago.Instances.Devices.{JidFailure, force_update_jid}

-- Why ForceReconnect fails.
pub data ReconnectFailure (E : Type 0) : Type 0 where
  already_connected : ReconnectFailure E
  jid_failed : JidFailure E → ReconnectFailure E
  start_failed : Failure E → ReconnectFailure E
  connect_failed : ReconnectFailure E
  login_failed : ReconnectFailure E

module _ {D E W : Type 0} (g : Gorm D E) (lib : Whatsmeow W) (set : Setting)
    (meanwhile : Sessions D W → Sessions D W) where
  -- The end of `Logout`: the channel may take the signal, then the client and it are forgotten.
  abbrev pub forget : Text → Sessions D W → Sessions D W
  forget i s = record s {
    signals = (if s.kills i && lib.receives i s.world then s.signals ++ i ∷ [] else s.signals);
    clients = at_key i none s.clients;
    kills = at_key i false s.kills;
  }

  abbrev pub logout_saved :
      Instance
      → Result (DbFailure E) (Unit {0}) × D
      → Sessions D W
      → Result (Failure E) Instance × Sessions D W
  logout_saved i (err e, d) s = (err (store_failed e), record s { db = d })
  logout_saved i (ok u, d) s = (ok i, forget i.id (record s { db = d }))

  abbrev pub logged_out :
      Instance → Bool × W → Sessions D W → Result (Failure E) Instance × Sessions D W
  logged_out i (false, w) s = (err logout_failed, record s { world = w })
  logged_out i (true, w) s =
      let i' = record i { connected = false } in
      logout_saved i' (update g i' s.db) (record s { world = w })

  abbrev pub logout_client :
      Instance → ℕ → Sessions D W → Result (Failure E) Instance × Sessions D W
  logout_client i c s =
      if lib.is_logged_in c s.world && lib.is_connected c s.world
      then logged_out i (lib.logout c s.world) s
      else if lib.is_connected c s.world
      then (ok i, forget i.id (record s { world = lib.disconnect c s.world }))
      else (err logout_ignored, s)

  unfoldable pub logout : Instance → Sessions D W → Result (Failure E) Instance × Sessions D W
  unfolding ensure_client_connected text_eq
  logout i s =
      with_client g lib set meanwhile (ensure_client_connected g lib set meanwhile i.id s)
        (logout_client i)

  -- `Disconnect`: none where the send on the kill channel waits for ever.
  abbrev pub closed :
      Instance
      → Result (DbFailure E) (Unit {0}) × D
      → Sessions D W
      → Result (Failure E) Instance × Sessions D W
  closed i (err e, d) s = (err (store_failed e), record s { db = d })
  closed i (ok u, d) s = (ok i, record s { db = d })

  abbrev pub kill : Instance → Sessions D W → Option (Result (Failure E) Instance × Sessions D W)
  kill i s =
      if s.kills i.id && lib.receives i.id s.world
      then (let i' = record i { events = [] } in
          some (closed i' (update g i' s.db) (record s { signals = s.signals ++ i.id ∷ [] })))
      else none

  abbrev pub disconnect_client :
      Instance
      → Result (Failure E) ℕ × Sessions D W
      → Option (Result (Failure E) Instance × Sessions D W)
  disconnect_client i (err e, s) = some (err e, s)
  disconnect_client i (ok c, s) =
      if lib.is_connected c s.world && lib.is_logged_in c s.world then kill i s else some (ok i, s)

  unfoldable pub disconnect :
      Instance → Sessions D W → Option (Result (Failure E) Instance × Sessions D W)
  unfolding ensure_client_connected
  disconnect i s = disconnect_client i (ensure_client_connected g lib set meanwhile i.id s)

  module _ (rows_of : Text → Option (List Text)) where
    -- What is asked of a client that may not be there.
    abbrev pub asks : (ℕ → W → Bool) → Option ℕ → W → Bool
    asks question none w = false
    asks question (some c) w = question c w

    abbrev pub look : Text → Sessions D W → Result (ReconnectFailure E) (Unit {0}) × Sessions D W
    look i s =
        if asks lib.is_connected (s.clients i) s.world
        then (if asks lib.is_logged_in (s.clients i) s.world
            then (ok tt, s)
            else (err login_failed, s))
        else (err connect_failed, s)

    abbrev pub replace : Text → Option ℕ → Sessions D W → Sessions D W
    replace i none s = s
    replace i (some c) s = forget i (record s { world = lib.disconnect c s.world })

    -- The goroutine of the new client runs during the pause.
    abbrev pub relaunch :
        Instance
        → Option Bool
        → Sessions D W
        → Result (ReconnectFailure E) (Unit {0}) × Sessions D W
    relaunch i none s = (err (start_failed proxy_unreadable), s)
    relaunch i (some p) s =
        let s' = replace i.id (s.clients i.id) s in
        look i.id (meanwhile (launch g lib set i (split b',' i.events) [] (some p) s').1)

    abbrev pub reload_found :
        Result (DbFailure E) Instance
        → Sessions D W
        → Result (ReconnectFailure E) (Unit {0}) × Sessions D W
    reload_found (err e) s = (err (start_failed (store_failed e)), s)
    reload_found (ok i) s =
        relaunch i (proxy_choice g lib set meanwhile i.proxy)
          (record s { kills = at_key i.id true s.kills })

    abbrev pub jid_updated :
        Text
        → Result (JidFailure E) (Unit {0}) × D
        → Sessions D W
        → Result (ReconnectFailure E) (Unit {0}) × Sessions D W
    jid_updated i (err e, d) s = (err (jid_failed e), record s { db = d })
    jid_updated i (ok u, d) s = reload_found (get_instance_by_id g i d) (record s { db = d })

    unfoldable pub force_reconnect :
        Text → Text → Sessions D W → Result (ReconnectFailure E) (Unit {0}) × Sessions D W
    unfolding get_instance_by_id force_update_jid split text_eq
    force_reconnect i number s =
        if asks lib.is_connected (s.clients i) s.world
          && asks lib.is_logged_in (s.clients i) s.world
        then (err already_connected, s)
        else jid_updated i (force_update_jid g rows_of i number s.db) s

    -- A client is there for the instance, connected and logged in.
    abbrev pub IsUp : Text → Sessions D W → Type 0
    IsUp i s =
        (c : ℕ) × (s.clients i ≡ some c)
        × (lib.is_connected c s.world ≡ true)
        × (lib.is_logged_in c s.world ≡ true)

    look-IsUp : (i : Text) (s : Sessions D W) → (look i s).0 ≡ ok tt → IsUp i (look i s).1
    look-IsUp i s = of (s.clients i) refl
      where
        both :
            (c : ℕ) (a b : Bool)
            → s.clients i ≡ some c
            → lib.is_connected c s.world ≡ a
            → lib.is_logged_in c s.world ≡ b
            → let r : Result (ReconnectFailure E) (Unit {0}) × Sessions D W =
                if a
                then (if b then (ok tt, s) else (err login_failed, s))
                else (err connect_failed, s) in
              r.0 ≡ ok tt → IsUp i r.1
        both c false b q x y e = cc
        both c true false q x y e = cc
        both c true true q x y e = (c, q, x, y)

        of :
            (o : Option ℕ)
            → s.clients i ≡ o
            → let r : Result (ReconnectFailure E) (Unit {0}) × Sessions D W =
                if asks lib.is_connected o s.world
                then (if asks lib.is_logged_in o s.world then (ok tt, s) else (err login_failed, s))
                else (err connect_failed, s) in
              r.0 ≡ ok tt → IsUp i r.1
        of none q e = cc
        of (some c) q e =
            both c (lib.is_connected c s.world) (lib.is_logged_in c s.world) q refl refl e

    relaunch-IsUp :
        (x : Instance) (p : Option Bool) (s : Sessions D W)
        → (relaunch x p s).0 ≡ ok tt
        → IsUp x.id (relaunch x p s).1
    relaunch-IsUp x none s e = cc
    relaunch-IsUp x (some p) s e =
        look-IsUp x.id
          (meanwhile
            (launch g lib set x (split b',' x.events) [] (some p)
              (replace x.id (s.clients x.id) s)).1)
          e

    updated-IsUp :
        (o : Result (DbFailure E) Instance) (s : Sessions D W)
        → (reload_found o s).0 ≡ ok tt
        → (x : Instance) × (o ≡ ok x) × IsUp x.id (reload_found o s).1
    updated-IsUp (err f) s e = cc
    updated-IsUp (ok x) s e = (
      x,
      refl,
      relaunch-IsUp x (proxy_choice g lib set meanwhile x.proxy)
          (record s { kills = at_key x.id true s.kills }) e,
    )

    -- When ForceReconnect reports success, the database, after the update of the address, has the
    -- instance that was asked for, and under the identifier of its row there is a client that is
    -- connected and logged in as the call returns, whatever went on while it waited.
    pub force_reconnect-IsUp :
        (i number : Text) (s : Sessions D W)
        → (force_reconnect i number s).0 ≡ ok tt
        → (x : Instance) × (get_instance_by_id g i (force_update_jid g rows_of i number s.db).1
            ≡ ok x)
          × IsUp x.id (force_reconnect i number s).1
    unfolding force_reconnect
    force_reconnect-IsUp i number s =
        of
          (asks lib.is_connected (s.clients i) s.world
            && asks lib.is_logged_in (s.clients i) s.world)
          (force_update_jid g rows_of i number s.db)
      where
        of :
            (b : Bool) (r : Result (JidFailure E) (Unit {0}) × D)
            → let t : Result (ReconnectFailure E) (Unit {0}) × Sessions D W =
                if b then (err already_connected, s) else jid_updated i r s in
              t.0 ≡ ok tt → (x : Instance) × (get_instance_by_id g i r.1 ≡ ok x) × IsUp x.id t.1
        of true r e = cc
        of false (err f, d) e = cc
        of false (ok u, d) e = updated-IsUp (get_instance_by_id g i d) (record s { db = d }) e
