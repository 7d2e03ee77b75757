-- ===== src/Webhook/Steps.antt =====
-- What any operation of the webhook service does to the table, for each instance.
use webapp_wago.Base.{
  ℕ, ◌<◌, Bool, true, false, not, ◌&&◌, List, [], ◌∷◌, ◌++◌, map, select, any, length, All, Option,
  none, some, Result, ok, err, Result-cases, ◌>>◌, leb, leb→gt, if◌then◌else◌, ◌≡◌, inl, inr, refl,
  sym, ap, subst, ◌∙◌, arith, Bool-cases, >>=-eq-ok,
}
use webapp_wago.Base.Text.{Text, text_eq, text_eq→eq}
use webapp_wago.Webhook.{Webhook, WebhookInput, to_model}
use webapp_wago.Webhook.Store.{Repository, Table, Laws, rows_of, owned, has_id}
use webapp_wago.Webhook.Service.{
  State, Surroundings, Failure, limit_reached, not_found, cached_or_loaded, create, update,
  update_found, delete, delete_by_instance, get, get_cached, found, finish, proceed, below_limit,
  renew, with_db, reload, reloaded, validate,
}

pub data Op : Type 0 where
  make : Text → WebhookInput → Op
  change : Text → Text → WebhookInput → Op
  drop_one : Text → Text → Op
  drop_all : Text → Op
  use_cache : Text → Op

abbrev pub instance_of : Op → Text
instance_of (make i w) = i
instance_of (change i id w) = i
instance_of (drop_one i id) = i
instance_of (drop_all i) = i
instance_of (use_cache i) = i

unfoldable pub step : {D E : Type 0} → Repository D E → Surroundings → Op → State D → State D
unfolding create update delete delete_by_instance get_cached
step r env (make i w) s = (create r env i w s).1
step r env (change i id w) s = (update r env i id w s).1
step r env (drop_one i id) s = (delete r i id s).1
step r env (drop_all i) s = (delete_by_instance r i s).1
step r env (use_cache i) s = (get_cached r i s).1

unfoldable pub steps : {D E : Type 0} → Repository D E → Surroundings → List Op → State D → State D
unfolding step
steps r env [] s = s
steps r env (op ∷ ops) s = steps r env ops (step r env op s)

-- The ways in which an operation on instance `i` may change the rows.
pub data Changed (i : Text) (old new : List Webhook) : Type 0 where
  same : new ≡ old → Changed i old new
  added :
      (v : Webhook)
      → v.instance_id ≡ i
      → length (select (owned i) old) < 20
      → new ≡ old ++ v ∷ []
      → Changed i old new
  replaced :
      (w : Webhook)
      → w.instance_id ≡ i
      → All (λ v. text_eq v.id w.id ≡ true → v.instance_id ≡ i) old
      → new ≡ map (λ v. if text_eq v.id w.id then w else v) old
      → Changed i old new
  removed :
      (keep : Webhook → Bool)
      → ((v : Webhook) → owned i v ≡ false → keep v ≡ true)
      → new ≡ select keep old
      → Changed i old new

module _ {D E : Type 0} (r : Repository D E) (t : Table D) (laws : Laws r t) where
  pub reload_db : (i : Text) (s : State D) → (reload r i s).db ≡ s.db
  unfolding reload
  reload_db i s = of (r.list i s.db)
    where
      of : (x : Result E (List Webhook)) → (reloaded r i x s).db ≡ s.db
      of (ok ws) = refl
      of (err e) = refl

  finish_db :
      {A : Type 0} (i : Text) (x : Result E A) (d : D) (s : State D)
      → (finish r i (x, d) s).1.db ≡ d
  finish_db i (ok a) d s = reload_db i (with_db r d s)
  finish_db i (err e) d s = refl

  proceed_db :
      {A : Type 0} (P : D → Type 0) (c : Result (Failure E) (Unit {0})) (s : State D)
      (k : Result (Failure E) A × State D)
      → P s.db
      → (c ≡ ok tt → P k.1.db)
      → P (proceed r c s k).1.db
  proceed_db P (ok tt) s k p q = q refl
  proceed_db P (err e) s k p q = p

  deleted : (i id : Text) (d : D) → Changed i (t.rows d) (t.rows (r.delete id i d).1)
  deleted i id d = elim (Result-cases (r.delete id i d).0) [
    | inl (tt, e) ↦ removed (λ v. not (has_id id v && owned i v)) keeps (laws.delete_rows id i d e)
    | inr (e, f) ↦ same (laws.delete_fails id i d f)
  ]
    where
      keeps : (v : Webhook) → owned i v ≡ false → not (has_id id v && owned i v) ≡ true
      keeps v h = ground (arith, h)

  cleared : (i : Text) (d : D) → Changed i (t.rows d) (t.rows (r.delete_by_instance i d).1)
  cleared i d = elim (Result-cases (r.delete_by_instance i d).0) [
    | inl (tt, e) ↦ removed (λ v. not (owned i v)) (λ v h. rw h refl) (laws.clear_rows i d e)
    | inr (e, f) ↦ same (laws.clear_fails i d f)
  ]

  limit_checked : (c : Result E ℕ) → below_limit r c ≡ ok tt → (n : ℕ) × (c ≡ ok n) × (n < 20)
  limit_checked (err e) h = cc
  limit_checked (ok n) h = elim (Bool-cases (leb 20 n)) [
    | inl e ↦
        (let h' : ◌≡◌ {A = Result (Failure E) (Unit {0})} (err limit_reached) (ok tt) = rw e at h in
          cc)
    | inr e ↦ (n, refl, leb→gt 20 n e)
  ]

  model_instance : (i : Text) (w : WebhookInput) → (to_model i w).instance_id ≡ i
  unfolding to_model
  model_instance i w = refl

  created :
      (i : Text) (w : WebhookInput) (d : D)
      → length (rows_of t i d) < 20
      → Changed i (t.rows d) (t.rows (r.create (to_model i w) d).1)
  created i w d h = elim (Result-cases (r.create (to_model i w) d).0) [
    | inl (v, e) ↦
        (let (k, k') = laws.create_row (to_model i w) d e in added v (k ∙ model_instance i w) h k')
    | inr (e, f) ↦ same (laws.create_fails (to_model i w) d f)
  ]

  create-Changed :
      (env : Surroundings) (i : Text) (w : WebhookInput) (s : State D)
      → Changed i (t.rows s.db) (t.rows (create r env i w s).1.db)
  unfolding create
  create-Changed env i w s =
      proceed_db (λ d. Changed i (t.rows s.db) (t.rows d))
        (validate env w >> below_limit r (r.count_by_instance i s.db)) s _ (same refl)
        (λ e.
          let (u, _, e') =
            >>=-eq-ok (validate env w) (λ _. below_limit r (r.count_by_instance i s.db)) e in
          let (n, e'', l) = limit_checked (r.count_by_instance i s.db) e' in
          subst (λ d. Changed i (t.rows s.db) (t.rows d))
            (sym (finish_db i (r.create (to_model i w) s.db).0 (r.create (to_model i w) s.db).1 s))
            (created i w s.db (subst (λ m. m < 20) (laws.count_rows i s.db e'') l)))

  found_lem :
      (i : Text) (c : Result E Webhook) {cur : Webhook}
      → found r i c ≡ ok cur
      → (c ≡ ok cur) × (cur.instance_id ≡ i)
  found_lem i (err e) h = cc
  found_lem i (ok v) {cur} h = elim (Bool-cases (text_eq v.instance_id i)) [
    | inl e ↦
        (let h' : ◌≡◌ {A = Result (Failure E) Webhook} (ok v) (ok cur) = rw e at h in
          let k : v ≡ cur = cc in
          (ap ok k, subst (λ u. u.instance_id ≡ i) k (text_eq→eq v.instance_id i e)))
    | inr e ↦
        (let h' : ◌≡◌ {A = Result (Failure E) Webhook} (err not_found) (ok cur) = rw e at h in cc)
  ]

  same_instance :
      (i id : Text) (cur : Webhook) (ws : List Webhook)
      → cur.instance_id ≡ i
      → All (λ v. text_eq v.id id ≡ true → v ≡ cur) ws
      → All (λ v. text_eq v.id id ≡ true → v.instance_id ≡ i) ws
  same_instance i id cur [] h a = tt
  same_instance i id cur (w ∷ ws) h (hw, a) =
      (λ e. ap (λ v. v.instance_id) (hw e) ∙ h, same_instance i id cur ws h a)

  updated :
      (i id : Text) (w : Webhook) (cur : Webhook) (d : D)
      → r.get id d ≡ ok cur
      → cur.instance_id ≡ i
      → w.instance_id ≡ i
      → Changed i (t.rows d) (t.rows (r.update (renew r cur w) d).1)
  updated i id w cur d g h hw = elim (Result-cases (r.update (renew r cur w) d).0) [
    | inl (v, e) ↦
        (let (there, only) = laws.get_key id d g in
          let key : id ≡ cur.id = sym (laws.get_id id d g) in
          let (stamp, rows) =
            laws.update_rows (renew r cur w) d
              (subst (λ k. any (has_id k) (t.rows d) ≡ true) key there) e in
          replaced v (ap (λ u. u.instance_id) stamp ∙ hw)
            (subst (λ k. All (λ u. text_eq u.id k ≡ true → u.instance_id ≡ i) (t.rows d))
              (key ∙ sym (ap (λ u. u.id) stamp)) (same_instance i id cur (t.rows d) h only))
            (rows
              ∙ ap (λ k. map (λ u. if text_eq u.id k then v else u) (t.rows d))
                  (sym (ap (λ u. u.id) stamp))))
    | inr (e, f) ↦ same (laws.update_fails (renew r cur w) d f)
  ]

  update-Changed :
      (env : Surroundings) (i id : Text) (w : WebhookInput) (s : State D)
      → Changed i (t.rows s.db) (t.rows (update r env i id w s).1.db)
  unfolding update get
  update-Changed env i id w s = of (get r i id s) refl
    where
      of :
          (g : Result (Failure E) Webhook)
          → get r i id s ≡ g
          → Changed i (t.rows s.db) (t.rows (update_found r env i w s g).1.db)
      of (err e) h = same refl
      of (ok cur) h =
          let (g, k) = found_lem i (r.get id s.db) h in
          let v = renew r cur (to_model i w) in
          proceed_db (λ d. Changed i (t.rows s.db) (t.rows d)) (validate env w) s _ (same refl)
            (λ e.
              subst (λ d. Changed i (t.rows s.db) (t.rows d))
                (sym (finish_db i (r.update v s.db).0 (r.update v s.db).1 s))
                (updated i id (to_model i w) cur s.db g k (model_instance i w)))

  cached_db : (i : Text) (s : State D) → (get_cached r i s).1.db ≡ s.db
  unfolding get_cached
  cached_db i s = of (s.cache i)
    where
      of : (o : Option (List Webhook)) → (cached_or_loaded r i o s).1.db ≡ s.db
      of none = reload_db i s
      of (some ws) = refl

  pub step-Changed :
      (env : Surroundings) (op : Op) (s : State D)
      → Changed (instance_of op) (t.rows s.db) (t.rows (step r env op s).db)
  unfolding step delete delete_by_instance
  step-Changed env (make i w) s = create-Changed env i w s
  step-Changed env (change i id w) s = update-Changed env i id w s
  step-Changed env (drop_one i id) s =
      subst (λ d. Changed i (t.rows s.db) (t.rows d))
        (sym (finish_db i (r.delete id i s.db).0 (r.delete id i s.db).1 s)) (deleted i id s.db)
  step-Changed env (drop_all i) s =
      subst (λ d. Changed i (t.rows s.db) (t.rows d))
        (sym (finish_db i (r.delete_by_instance i s.db).0 (r.delete_by_instance i s.db).1 s))
        (cleared i s.db)
  step-Changed env (use_cache i) s = same (ap t.rows (cached_db i s))
