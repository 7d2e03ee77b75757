-- ===== src/Instances/Cleaning.antt =====
-- Delete of pkg/instance/service/instance_service.go and ensureClientConnected: what is left of a
-- session, and what a client is known to be.
use webapp_wago.Base.{
  ℕ, Bool, true, false, ◌&&◌, [], ◌∷◌, ◌++◌, Option, none, some, Result, ok, err, ok-injective,
  if◌then◌else◌, ◌≡◌, ◌⊎◌, inl, inr, refl, subst, ap, sym, ◌∙◌,
}
use webapp_wago.Base.Text.{Text, text_eq}
use webapp_wago.Instances.{Instance}
use webapp_wago.Instances.Store.{
  Gorm, DbFailure, get_instance_by_id, delete_row, lift_on, transaction, also,
}
use webapp_wago.Instances.Sessions.{
  Setting, Whatsmeow, Sessions, Failure, store_failed, no_session, client_disconnected, signal,
  at_key, clear_instance_cache, start_instance,
}
use webapp_wago.Instances.Service.{checked_client, after_start, ensured, ensure_client_connected}
use webapp_wago.Instances.Changes.{leave, erase, erased, delete_found, delete}

module _ {D E W : Type 0} (g : Gorm D E) (lib : Whatsmeow W) (set : Setting)
    (meanwhile : Sessions D W → Sessions D W) where
  -- Everything that is kept of the instance is gone, and what is kept of others is as it was.
  abbrev pub IsErased : Instance → Sessions D W → Sessions D W → Type 0
  IsErased i s s' =
      ((j : Text) → s'.clients j ≡ (if text_eq i.id j then none else s.clients j))
      × ((j : Text) → s'.my_clients j ≡ (if text_eq i.id j then none else s.my_clients j))
      × ((j : Text) → s'.kills j ≡ (if text_eq i.id j then false else s.kills j))
      × ((t : Text) → s'.user_info t ≡ (if text_eq i.token t then none else s.user_info t))
      × (s'.started ≡ s.started)

  -- Only the signals and the world differ.
  SameMaps : Sessions D W → Sessions D W → Type 0
  SameMaps s s' =
      (s'.db ≡ s.db)
      × (s'.clients ≡ s.clients)
      × (s'.my_clients ≡ s.my_clients)
      × (s'.kills ≡ s.kills)
      × (s'.user_info ≡ s.user_info)
      × (s'.started ≡ s.started)

  signal-SameMaps : (i : Text) (s : Sessions D W) → SameMaps s (signal g lib set i s)
  unfolding SameMaps
  signal-SameMaps i s = of (s.kills i && lib.receives i s.world)
    where
      of : (b : Bool) → SameMaps s (if b then record s { signals = s.signals ++ i ∷ [] } else s)
      of true = (refl, refl, refl, refl, refl, refl)
      of false = (refl, refl, refl, refl, refl, refl)

  twice :
      {A : Type 0} (b : Bool) (x y : A)
      → (if b then x else if b then x else y) ≡ (if b then x else y)
  twice true x y = refl
  twice false x y = refl

  -- The client, its channel and the rest in the order of `Delete`.
  left : Instance → Sessions D W → Sessions D W
  left i s = record s {
    world = leave g lib set meanwhile (s.clients i.id) s.world;
    clients = at_key i.id none s.clients;
    kills = at_key i.id false s.kills;
  }

  erase-IsErased : (i : Instance) (s : Sessions D W) → IsErased i s (erase g lib set meanwhile i s)
  unfolding clear_instance_cache SameMaps left
  erase-IsErased i s =
      let (d, c, m, k, u, st) = signal-SameMaps i.id (left i s) in
      (
        (λ j. ap (λ f. at_key i.id none f j) c ∙ twice (text_eq i.id j) none (s.clients j)),
        (λ j. ap (λ f. at_key i.id none f j) m),
        (λ j. ap (λ f. at_key i.id false f j) k ∙ twice (text_eq i.id j) false (s.kills j)),
        (λ t. ap (λ f. at_key i.token none f t) u),
        st,
      )

  erase-db : (i : Instance) (s : Sessions D W) → (erase g lib set meanwhile i s).db ≡ s.db
  unfolding clear_instance_cache SameMaps left
  erase-db i s = (signal-SameMaps i.id (left i s)).0

  -- Either the instance is found and nothing is kept of its session, or nothing has changed; and
  -- the database is as it was unless there is no error.
  abbrev pub IsDeleted : Text → Sessions D W → Result (Failure E) (Unit {0}) × Sessions D W → Type 0
  IsDeleted id s r =
      (((i : Instance) × (get_instance_by_id g id s.db ≡ ok i) × IsErased i s r.1)
        ⊎ ((e : DbFailure E) × (get_instance_by_id g id s.db ≡ err e)
            × (r ≡ (err (store_failed e), s))))
      × ((r.0 ≡ ok tt) ⊎ (r.1.db ≡ s.db))

  -- A transaction that fails is undone.
  delete_row_atomic :
      (id : Text) (d : D) → ((delete_row g id d).0 ≡ ok tt) ⊎ ((delete_row g id d).1 ≡ d)
  unfolding delete_row
  delete_row_atomic id d =
      of (also (g.delete_labels id d) (λ d'. also (g.delete_messages id d') (g.delete_instance id)))
    where
      of :
          (r : Result E (Unit {0}) × D)
          → ((lift_on (transaction d r)).0 ≡ ok tt) ⊎ ((lift_on (transaction d r)).1 ≡ d)
      of (ok u, d') = inl refl
      of (err e, d') = inr refl

  erased-IsErased :
      (i : Instance) (s s' : Sessions D W) (r : Result (DbFailure E) (Unit {0}) × D)
      → IsErased i s s'
      → IsErased i s (erased g lib set meanwhile r s').1
  erased-IsErased i s s' (ok u, d) h = h
  erased-IsErased i s s' (err e, d) h = h

  erased-db :
      (d0 : D) (s : Sessions D W) (r : Result (DbFailure E) (Unit {0}) × D)
      → (r.0 ≡ ok tt) ⊎ (r.1 ≡ d0)
      → ((erased g lib set meanwhile r s).0 ≡ ok tt) ⊎ ((erased g lib set meanwhile r s).1.db ≡ d0)
  erased-db d0 s (ok u, d) h = inl refl
  erased-db d0 s (err e, d) (inl k) = cc
  erased-db d0 s (err e, d) (inr k) = inr k

  -- Delete of an instance that is found removes its client, its running state, its kill channel
  -- and its cached data, also where the database then refuses, and touches nothing of another
  -- instance or token; of one that is not found it changes nothing. The database changes only
  -- where there is no error.
  pub delete-IsDeleted :
      (id : Text) (s : Sessions D W) → IsDeleted id s (delete g lib set meanwhile id s)
  unfolding delete
  delete-IsDeleted id s = of (get_instance_by_id g id s.db) refl
    where
      of :
          (o : Result (DbFailure E) Instance)
          → get_instance_by_id g id s.db ≡ o
          → IsDeleted id s (delete_found g lib set meanwhile id o s)
      of (err e) q = (inr (e, q, refl), inr refl)
      of (ok i) q =
          let s' : Sessions D W = erase g lib set meanwhile i s in
          (
            inl (i, q, erased-IsErased i s s' (delete_row g id s'.db) (erase-IsErased i s)),
            erased-db s.db s' (delete_row g id s'.db) (
                subst (λ d. ((delete_row g id s'.db).0 ≡ ok tt) ⊎ ((delete_row g id s'.db).1 ≡ d))
                  (erase-db i s) (delete_row_atomic id s'.db)),
          )

  IsLive : Text → ℕ → Sessions D W → Type 0
  IsLive i c s = (s.clients i ≡ some c) × (lib.is_connected c s.world ≡ true)

  -- A client is given back where it is connected.
  given :
      (i : Text) (c d : ℕ) (f : Failure E) (s : Sessions D W) (b : Bool)
      → lib.is_connected d s.world ≡ b
      → s.clients i ≡ some d
      → let r : Result (Failure E) ℕ × Sessions D W = if b then (ok d, s) else (err f, s) in
        r.0 ≡ ok c → IsLive i c r.1
  unfolding IsLive
  given i c d f s false q k e = cc
  given i c d f s true q k e =
      let same : d ≡ c = ok-injective e in
      (k ∙ ap (λ x. some x) same, ap (λ x. lib.is_connected x s.world) (sym same) ∙ q)

  checked-IsLive :
      (i : Text) (c : ℕ) (s : Sessions D W) (o : Option ℕ)
      → s.clients i ≡ o
      → (checked_client g lib set meanwhile o s).0 ≡ ok c
      → IsLive i c (checked_client g lib set meanwhile o s).1
  checked-IsLive i c s none q e = cc
  checked-IsLive i c s (some d) q e = given i c d no_session s (lib.is_connected d s.world) refl q e

  started-IsLive :
      (i : Text) (c : ℕ) (r : Result (Failure E) (Unit {0}) × Sessions D W)
      → (after_start g lib set meanwhile i r).0 ≡ ok c
      → IsLive i c (after_start g lib set meanwhile i r).1
  started-IsLive i c (err f, s) e = cc
  started-IsLive i c (ok u, s) e = checked-IsLive i c (meanwhile s) ((meanwhile s).clients i) refl e

  -- Whatever else runs while it waits for a new session, a client that ensureClientConnected gives
  -- back is the one that is kept for the instance when it returns, and it is connected.
  pub ensure_client_connected-ok :
      (i : Text) (s : Sessions D W) (c : ℕ)
      → (ensure_client_connected g lib set meanwhile i s).0 ≡ ok c
      → let s' = (ensure_client_connected g lib set meanwhile i s).1 in
        (s'.clients i ≡ some c) × (lib.is_connected c s'.world ≡ true)
  unfolding ensure_client_connected IsLive
  ensure_client_connected-ok i s c = of (s.clients i) refl
    where
      of :
          (o : Option ℕ)
          → s.clients i ≡ o
          → (ensured g lib set meanwhile i o s).0 ≡ ok c
          → IsLive i c (ensured g lib set meanwhile i o s).1
      of none q e = started-IsLive i c (start_instance g lib set i s) e
      of (some d) q e = given i c d client_disconnected s (lib.is_connected d s.world) refl q e
