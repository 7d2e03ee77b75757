-- ===== src/Instances/Proxies.antt =====
-- The proxy of an instance in pkg/instance/service/instance_service.go and in StartInstance of
-- pkg/whatsmeow/service/whatsmeow.go: when it is used, and when it keeps Connect from working.
use webapp_wago.Base.{
  Bool, true, false, [], ◌∷◌, ◌++◌, is_empty, Option, none, some, Result, ok, err, if◌then◌else◌,
  ◌≡◌, refl, ap, ◌∙◌,
}
use webapp_wago.Base.Text.{Text}
use webapp_wago.Proxy.{normalize_proxy_protocol}
use webapp_wago.Routing.{subscriptions_of}
use webapp_wago.Instances.{Instance}
use webapp_wago.Instances.Store.{Gorm, DbFailure, get_instance_by_id, update}
use webapp_wago.Instances.Sessions.{
  ProxyConfig, Setting, Whatsmeow, Sessions, MyClient, Failure, proxy_unreadable, no_proxy_host,
  no_proxy_port, not_in_runtime, store_failed, at_key, launch, start_found, start_instance,
  settings_found, update_instance_settings,
}
use webapp_wago.Instances.Service.{
  ConnectStruct, subscribed_events, configured, told, proxy_choice, connect_with, connect_stored,
  connect,
}
use webapp_wago.Instances.Changes.{
  SetProxyStruct, erased, save_proxy, proxy_checked, proxy_found, proxy_of, set_proxy,
  set_proxy_from_struct,
}

-- What SetProxyFromStruct stores.
abbrev pub stored_config : SetProxyStruct → ProxyConfig
stored_config b = record (proxy_of b) { protocol = normalize_proxy_protocol b.protocol b.port }

module _ {D E W : Type 0} (g : Gorm D E) (lib : Whatsmeow W) (set : Setting)
    (meanwhile : Sessions D W → Sessions D W) where
  no_proxy_text :
      (proxy : Text)
      → proxy ≡ []
      → is_empty set.proxy_host ≡ false
      → set.unmarshal_proxy [] ≡ none
      → proxy_choice g lib set meanwhile proxy ≡ none
  no_proxy_text proxy e h u = rw (e, h, u) refl

  -- Connect of an instance that does not run, has no proxy stored and can be saved fails where a
  -- global proxy host is configured, since the empty text is decoded, which is an error.
  pub connect-proxy_unreadable :
      (body : ConnectStruct) (i : Instance) (s : Sessions D W)
      → i.proxy ≡ []
      → is_empty set.proxy_host ≡ false
      → set.unmarshal_proxy [] ≡ none
      → s.my_clients i.id ≡ none
      → (update g (configured g lib set meanwhile body i) s.db).0 ≡ ok tt
      → (connect g lib set meanwhile body i s).0 ≡ err proxy_unreadable
  unfolding connect update_instance_settings
  connect-proxy_unreadable body i s e h u m =
      of (update g (configured g lib set meanwhile body i) s.db)
    where
      j : Instance
      j = configured g lib set meanwhile body i

      choice : proxy_choice g lib set meanwhile j.proxy ≡ none
      choice = no_proxy_text j.proxy e h u

      fresh :
          (f : Failure E) (t : Sessions D W)
          → (connect_with g lib set meanwhile body j (err f, t)).0 ≡ err proxy_unreadable
      fresh f t =
          ap
            (λ p.
              (told g lib set meanwhile j (
                launch g lib set j (subscribed_events body.subscribe) body.phone p
                  (record t { kills = at_key j.id true t.kills }))).0)
            choice

      looked :
          (o : Result (DbFailure E) Instance) (k : Option MyClient) (t : Sessions D W)
          → k ≡ none
          → (connect_with g lib set meanwhile body j (settings_found g lib set j.id o k t)).0
            ≡ err proxy_unreadable
      looked (err f) k t q = fresh (store_failed f) t
      looked (ok x) none t q = fresh not_in_runtime t
      looked (ok x) (some c) t q = cc

      of :
          (r : Result (DbFailure E) (Unit {0}) × D)
          → r.0 ≡ ok tt
          → (connect_stored g lib set meanwhile body j r s).0 ≡ err proxy_unreadable
      of (err f, d) k = cc
      of (ok x, d) k =
          looked (get_instance_by_id g j.id d) (s.my_clients j.id) (record s { db = d }) m

  abbrev pub with_config : SetProxyStruct → Instance → Instance
  with_config b i = record i { proxy = set.marshal_proxy (some (stored_config b)) }

  module _ (b : SetProxyStruct) where
    -- The instance was found and saved with the proxy, which has a host and a port.
    IsSaved : Text → Sessions D W → Sessions D W → Type 0
    IsSaved id s s' =
        (i : Instance) × (get_instance_by_id g id s.db ≡ ok i)
        × (is_empty b.host ≡ false)
        × (is_empty b.port ≡ false)
        × ((update g (with_config b i) s.db).0 ≡ ok tt)
        × (s' ≡ record s { db = (update g (with_config b i) s.db).1 })

    erased_ok :
        (r : Result (DbFailure E) (Unit {0}) × D) (s : Sessions D W)
        → (erased g lib set meanwhile r s).0 ≡ ok tt
        → (r.0 ≡ ok tt) × ((erased g lib set meanwhile r s).1 ≡ record s { db = r.1 })
    erased_ok (ok u, d) s e = (refl, refl)
    erased_ok (err f, d) s e = cc

    set_proxy-IsSaved :
        (id : Text) (s : Sessions D W)
        → (set_proxy_from_struct g lib set meanwhile id b s).0 ≡ ok tt
        → IsSaved id s (set_proxy_from_struct g lib set meanwhile id b s).1
    unfolding set_proxy_from_struct set_proxy IsSaved
    set_proxy-IsSaved id s = of (get_instance_by_id g id s.db) refl
      where
        checked :
            (i : Instance) (no_host no_port : Bool)
            → is_empty b.host ≡ no_host
            → is_empty b.port ≡ no_port
            → get_instance_by_id g id s.db ≡ ok i
            → let r : Result (Failure E) (Unit {0}) × Sessions D W =
                if no_host
                then (err no_proxy_host, s)
                else if no_port
                then (err no_proxy_port, s)
                else save_proxy g lib set meanwhile
                    (set.marshal_proxy (some (stored_config b)))
                    i
                    s in
              r.0 ≡ ok tt → IsSaved id s r.1
        checked i true p eh ep q e = cc
        checked i false true eh ep q e = cc
        checked i false false eh ep q e =
            let (x, y) = erased_ok (update g (with_config b i) s.db) s e in (i, q, eh, ep, x, y)

        of :
            (o : Result (DbFailure E) Instance)
            → get_instance_by_id g id s.db ≡ o
            → let r : Result (Failure E) (Unit {0}) × Sessions D W =
                proxy_found g lib set meanwhile
                  (proxy_checked g lib set meanwhile (some (proxy_of b)))
                  o
                  s in
              r.0 ≡ ok tt → IsSaved id s r.1
        of (err f) q e = cc
        of (ok i) q e = checked i (is_empty b.host) (is_empty b.port) refl refl q e

    started_with :
        (i : Instance) (s : Sessions D W)
        → is_empty i.proxy ≡ false
        → set.unmarshal_proxy i.proxy ≡ some (stored_config b)
        → is_empty b.host ≡ false
        → (start_found g lib set (ok i) s).1.started
          ≡ s.started
            ++ record {
              instance_of = i;
              subscriptions = subscriptions_of i.events;
              phone = [];
              is_proxy = true;
            }
              ∷ []
    started_with i s e u h = rw (e, u, h) refl

    -- SetProxyFromStruct that succeeds was given a host and a port; and where the database gives
    -- back the instance that was saved, and the stored text is not empty and decodes to what was
    -- encoded, the next StartInstance starts the instance that was found, with the new proxy, and
    -- tells the client to use it.
    pub set_proxy-started :
        (id : Text) (s : Sessions D W)
        → ((i : Instance) (d : D)
            → get_instance_by_id g id d ≡ ok i
            → (update g (with_config b i) d).0 ≡ ok tt
            → get_instance_by_id g id (update g (with_config b i) d).1 ≡ ok (with_config b i))
        → is_empty (set.marshal_proxy (some (stored_config b))) ≡ false
        → set.unmarshal_proxy (set.marshal_proxy (some (stored_config b))) ≡ some (stored_config b)
        → (set_proxy_from_struct g lib set meanwhile id b s).0 ≡ ok tt
        → (i : Instance) × (get_instance_by_id g id s.db ≡ ok i)
          × (is_empty b.port ≡ false)
          × ((start_instance g lib set id
                (set_proxy_from_struct g lib set meanwhile id b s).1).1.started
              ≡ s.started
                ++ record {
                  instance_of = with_config b i;
                  subscriptions = subscriptions_of i.events;
                  phone = [];
                  is_proxy = true;
                }
                  ∷ [])
    unfolding start_instance IsSaved
    set_proxy-started id s law e u done =
        let (i, q, eh, ep, saved, same) = set_proxy-IsSaved id s done in
        let s1 : Sessions D W = record s { db = (update g (with_config b i) s.db).1 } in
        (
          i,
          q,
          ep,
          ap (λ t. (start_instance g lib set id t).1.started) same
              ∙ ap (λ o. (start_found g lib set o s1).1.started) (law i s.db q saved)
              ∙ started_with (with_config b i) s1 e u eh,
        )
