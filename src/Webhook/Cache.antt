-- ===== src/Webhook/Cache.antt =====
-- The cached lists of pkg/webhook/service/webhook_service.go against the table.
use webapp_wago.Base.{
  select, true, false, List, [], ◌∷◌, Option, none, some, Result, ok, err, if◌then◌else◌, ◌≡◌, inl,
  inr, refl, sym, ap, subst, ◌∙◌, Bool-cases, ◌>>◌,
}
use webapp_wago.Base.Text.{Text, text_eq, text_eq→eq, text_eq_refl}
use webapp_wago.Webhook.{Webhook, WebhookInput, to_model}
use webapp_wago.Webhook.Store.{Repository, Table, Laws, IsListing, rows_of, owned}
use webapp_wago.Webhook.Service.{
  State, Surroundings, Failure, create, update, update_found, delete, delete_by_instance, get,
  get_cached, cached_or_loaded, finish, proceed, below_limit, renew, with_db, reload, reloaded,
  validate, listed,
}
use webapp_wago.Webhook.Steps.{
  reload_db, Op, make, change, drop_one, drop_all, use_cache, instance_of, step, steps,
}
use webapp_wago.Webhook.Limits.{step_isolated}

module _ {D E : Type 0} (r : Repository D E) (t : Table D) (laws : Laws r t) where
  -- Each list in the cache is what the table holds for its instance.
  abbrev pub Coherent : State D → Type 0
  Coherent s =
      (j : Text) (ws : List Webhook) → s.cache j ≡ some ws → IsListing ws (rows_of t j s.db)

  -- What an operation on instance `i` does to the cache: it reloads the list of `i`, or the cache
  -- stays and the rows stay.
  data Effect (i : Text) (s s' : State D) : Type 0 where
    kept : s'.cache ≡ s.cache → t.rows s'.db ≡ t.rows s.db → Effect i s s'
    renewed : (d : D) → s' ≡ reload r i (with_db r d s) → Effect i s s'

  finish-Effect :
      {A : Type 0} (i : Text) (x : Result E A) (d : D) (s : State D)
      → ((e : E) → x ≡ err e → t.rows d ≡ t.rows s.db)
      → Effect i s (finish r i (x, d) s).1
  finish-Effect i (ok a) d s f = renewed d refl
  finish-Effect i (err e) d s f = kept refl (f e refl)

  proceed-Effect :
      {A : Type 0} (i : Text) (c : Result (Failure E) (Unit {0})) (s : State D)
      (k : Result (Failure E) A × State D)
      → Effect i s k.1
      → Effect i s (proceed r c s k).1
  proceed-Effect i (ok u) s k f = f
  proceed-Effect i (err e) s k f = kept refl refl

  found-Effect :
      (env : Surroundings) (i : Text) (w : WebhookInput) (s : State D)
      (g : Result (Failure E) Webhook)
      → Effect i s (update_found r env i w s g).1
  found-Effect env i w s (err e) = kept refl refl
  found-Effect env i w s (ok cur) =
      let v = renew r cur (to_model i w) in
      proceed-Effect i (validate env w) s _
        (finish-Effect i (r.update v s.db).0 (r.update v s.db).1 s (λ e. laws.update_fails v s.db))

  cached-Effect : (i : Text) (s : State D) → Effect i s (get_cached r i s).1
  unfolding get_cached
  cached-Effect i s = of (s.cache i)
    where
      of : (o : Option (List Webhook)) → Effect i s (cached_or_loaded r i o s).1
      of none = renewed s.db refl
      of (some ws) = kept refl refl

  step-Effect :
      (env : Surroundings) (op : Op) (s : State D) → Effect (instance_of op) s (step r env op s)
  unfolding step create update delete delete_by_instance
  step-Effect env (make i w) s =
      proceed-Effect i (validate env w >> below_limit r (r.count_by_instance i s.db)) s _ (
        finish-Effect i (r.create (to_model i w) s.db).0 (r.create (to_model i w) s.db).1 s
          (λ e. laws.create_fails (to_model i w) s.db))
  step-Effect env (change i id w) s = found-Effect env i w s (get r i id s)
  step-Effect env (drop_one i id) s =
      finish-Effect i (r.delete id i s.db).0 (r.delete id i s.db).1 s
        (λ e. laws.delete_fails id i s.db)
  step-Effect env (drop_all i) s =
      finish-Effect i (r.delete_by_instance i s.db).0 (r.delete_by_instance i s.db).1 s
        (λ e. laws.clear_fails i s.db)
  step-Effect env (use_cache i) s = cached-Effect i s

  -- A reload that can read the table.
  reload-cache :
      (i : Text) (s : State D) {ws : List Webhook}
      → r.list i s.db ≡ ok ws
      → (j : Text) → (reload r i s).cache j ≡ (if text_eq i j then some ws else s.cache j)
  unfolding reload
  reload-cache i s e j = ap (λ x. (reloaded r i x s).cache j) e

  -- The table can always be read.
  abbrev pub Readable : Type 0
  Readable = (j : Text) (d : D) → (ws : List Webhook) × (r.list j d ≡ ok ws)

  reloaded-row :
      (i j : Text) (s : State D) (ws ws' : List Webhook)
      → text_eq i j ≡ true
      → r.list i s.db ≡ ok ws'
      → (reload r i s).cache j ≡ some ws
      → IsListing ws (rows_of t j s.db)
  reloaded-row i j s ws ws' e l h =
      let h' : some ws' ≡ some ws = sym (reload-cache i s l j ∙ (rw e refl)) ∙ h in
      let k : ws' ≡ ws = cc in
      subst (λ u. IsListing u (rows_of t j s.db)) k
        (subst (λ u. IsListing ws' (rows_of t u s.db)) (text_eq→eq i j e) (laws.list_rows i s.db l))

  Effect-Coherent :
      (i : Text) (s s' : State D)
      → Readable
      → ((j : Text) → text_eq i j ≡ false → rows_of t j s'.db ≡ rows_of t j s.db)
      → Effect i s s'
      → Coherent s
      → Coherent s'
  Effect-Coherent i s s' reads iso (kept e k) c j ws h =
      subst (λ rs. IsListing ws (select (owned j) rs)) (sym k) (c j ws (ap (λ f. f j) (sym e) ∙ h))
  Effect-Coherent i s s' reads iso (renewed d e) c j ws h =
      let moved : State D = with_db r d s in
      let (ws', l) = reads i d in
      let h' : (reload r i moved).cache j ≡ some ws = ap (λ u. u.cache j) (sym e) ∙ h in
      let same_db : s'.db ≡ d = ap (λ u. u.db) e ∙ reload_db r t laws i moved in
      elim (Bool-cases (text_eq i j)) [
        | inl b ↦
            subst (λ x. IsListing ws (rows_of t j x)) (sym same_db)
              (reloaded-row i j moved ws ws' b l h')
        | inr b ↦
            subst (IsListing ws) (sym (iso j b))
              (c j ws (sym (reload-cache i moved l j ∙ (rw b refl)) ∙ h'))
      ]

  steps-Coherent :
      (env : Surroundings) (ops : List Op) (s : State D)
      → Readable
      → Coherent s
      → Coherent (steps r env ops s)
  unfolding steps
  steps-Coherent env [] s reads c = c
  steps-Coherent env (op ∷ ops) s reads c = steps-Coherent env ops (step r env op s) reads (
      Effect-Coherent (instance_of op) s (step r env op s) reads (step_isolated r t laws env op s)
        (step-Effect env op s) c)

  pub get_cached_row :
      (i : Text) (s : State D)
      → Readable
      → Coherent s
      → IsListing (get_cached r i s).0 (rows_of t i s.db)
  unfolding get_cached
  get_cached_row i s reads c = of (s.cache i) refl
    where
      of :
          (o : Option (List Webhook))
          → s.cache i ≡ o
          → IsListing (cached_or_loaded r i o s).0 (rows_of t i s.db)
      of (some ws) e = c i ws e
      of none e =
          let (ws, l) = reads i s.db in
          let k : (reload r i s).cache i ≡ some ws =
            reload-cache i s l i ∙ (rw (text_eq_refl i) refl) in
          subst (λ o. IsListing (listed r o) (rows_of t i s.db)) (sym k) (laws.list_rows i s.db l)

  -- Where the table can be read, a service that starts with an empty cache has after any operations
  -- on any instances, failed ones included, as the cached list of an instance exactly the rows of
  -- that instance in the table, the older ones first.
  pub steps_cached :
      (env : Surroundings) (ops : List Op) (d : D) (i : Text)
      → Readable
      → let s : State D = steps r env ops (record { db = d; cache = λ j. none }) in
        IsListing (get_cached r i s).0 (rows_of t i s.db)
  steps_cached env ops d i reads =
      get_cached_row i _ reads (steps-Coherent env ops _ reads (λ j ws h. cc))
