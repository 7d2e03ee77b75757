-- ===== src/Webhook/Memory.antt =====
-- A table of webhooks in memory, as an instance of the interface of the repository, of which no query
-- fails but that for a missing key.
mod Tests
use webapp_wago.Base.{
  ℕ, suc, ◌≤◌, leb, any, arith, Bool, true, false, not, ◌&&◌, List, [], ◌∷◌, ◌++◌, map, select,
  length, replicate, All, Result, ok, err, ok-injective, if◌then◌else◌, ◌≡◌, refl, sym, ap, subst,
  Bool-cases, inl, inr, ◌∙◌,
}
use mathlib.Core.List.{Perm}
use mathlib.Core.List.Perm
use webapp_wago.Base.Text.{text_eq, text_eq→eq}
use webapp_wago.Webhook.{Webhook}
use webapp_wago.Webhook.Store.{Repository, Table, Laws, IsListing, AreByAge, stamped, owned, has_id}

abbrev Rows : Type 0
Rows = List Webhook

abbrev only_row : Rows → Result (Unit {0}) Webhook
only_row [] = err tt
only_row (w ∷ []) = ok w
only_row (w ∷ v ∷ ws) = err tt

-- A key that no row has yet, and a row under it.
abbrev keyed : Webhook → Rows → Webhook
keyed w d = record {
  id = replicate (suc (length d)) b'k';
  instance_id = w.instance_id;
  url = w.url;
  enabled = w.enabled;
  events = w.events;
  chat_type = w.chat_type;
  chat_ids = w.chat_ids;
  senders = w.senders;
  chat_names = w.chat_names;
  sender_names = w.sender_names;
  ignore_from_me = w.ignore_from_me;
  rabbitmq_enable = w.rabbitmq_enable;
  websocket_enable = w.websocket_enable;
  nats_enable = w.nats_enable;
  created_at = length d;
  updated_at = length d;
}

-- `ORDER BY created_at`.
abbrev insert_by_age : Webhook → Rows → Rows
insert_by_age w [] = w ∷ []
insert_by_age w (v ∷ ws) =
    let rest = insert_by_age w ws in if leb w.created_at v.created_at then w ∷ v ∷ ws else v ∷ rest

abbrev sort_by_age : Rows → Rows
sort_by_age [] = []
sort_by_age (w ∷ ws) = insert_by_age w (sort_by_age ws)

-- A time of change after all that are there.
abbrev now : Rows → ℕ
now d = suc (length d)

abbrev pub memory : Repository Rows (Unit {0})
memory = record {
  list = λ i d. ok (sort_by_age (select (owned i) d));
  get = λ id d. only_row (select (has_id id) d);
  create = λ w d. (ok (keyed w d), d ++ keyed w d ∷ []);
  update = λ w d. (
    ok (stamped w (now d)),
    if any (has_id w.id) d
        then map (λ v. if text_eq v.id w.id then stamped w (now d) else v) d
        else d ++ stamped w (now d) ∷ [],
  );
  delete = λ id i d. (ok tt, select (λ v. not (has_id id v && owned i v)) d);
  delete_by_instance = λ i d. (ok tt, select (λ v. not (owned i v)) d);
  count_by_instance = λ i d. ok (length (select (owned i) d));
}

abbrev pub in_order : Table Rows
in_order = record { rows = λ d. d }

insert_by_age-Perm : (w : Webhook) (ws : Rows) → Perm (insert_by_age w ws) (w ∷ ws)
insert_by_age-Perm w [] = Perm.refl (w ∷ [])
insert_by_age-Perm w (v ∷ ws) = elim (Bool-cases (leb w.created_at v.created_at)) [
  | inl e ↦ rw e (Perm.refl (w ∷ v ∷ ws))
  | inr e ↦ rw e (Perm.trans (Perm.cons v (insert_by_age-Perm w ws)) (Perm.swap w v ws))
]

sort_by_age-Perm : (ws : Rows) → Perm (sort_by_age ws) ws
sort_by_age-Perm [] = Perm.refl []
sort_by_age-Perm (w ∷ ws) =
    Perm.trans (insert_by_age-Perm w (sort_by_age ws)) (Perm.cons w (sort_by_age-Perm ws))

NotBefore : ℕ → Rows → Type 0
NotBefore n ws = All (λ v. n ≤ v.created_at) ws

NotBefore-trans : (m n : ℕ) (ws : Rows) → m ≤ n → NotBefore n ws → NotBefore m ws
unfolding NotBefore
NotBefore-trans m n [] h a = tt
NotBefore-trans m n (w ∷ ws) h (hw, a) = (omega arith, NotBefore-trans m n ws h a)

insert_by_age-NotBefore :
    (n : ℕ) (w : Webhook) (ws : Rows)
    → n ≤ w.created_at
    → NotBefore n ws
    → NotBefore n (insert_by_age w ws)
unfolding NotBefore
insert_by_age-NotBefore n w [] h a = (h, tt)
insert_by_age-NotBefore n w (v ∷ ws) h (hv, a) = elim (Bool-cases (leb w.created_at v.created_at)) [
  | inl e ↦ rw e (h, (hv, a))
  | inr e ↦ rw e (hv, insert_by_age-NotBefore n w ws h a)
]

insert_by_age-AreByAge : (w : Webhook) (ws : Rows) → AreByAge ws → AreByAge (insert_by_age w ws)
unfolding NotBefore
insert_by_age-AreByAge w [] h = (tt, tt)
insert_by_age-AreByAge w (v ∷ ws) (hv, h) = elim (Bool-cases (leb w.created_at v.created_at)) [
  | inl e ↦
      (let le : w.created_at ≤ v.created_at = ground arith in
        rw e ((le, NotBefore-trans w.created_at v.created_at ws le hv), (hv, h)))
  | inr e ↦
      (let le : v.created_at ≤ w.created_at = ground arith in
        rw e (insert_by_age-NotBefore v.created_at w ws le hv, insert_by_age-AreByAge w ws h))
]

sort_by_age-AreByAge : (ws : Rows) → AreByAge (sort_by_age ws)
sort_by_age-AreByAge [] = tt
sort_by_age-AreByAge (w ∷ ws) = insert_by_age-AreByAge w (sort_by_age ws) (sort_by_age-AreByAge ws)

sort_by_age-IsListing : (ws : Rows) → IsListing (sort_by_age ws) ws
sort_by_age-IsListing ws = record {
  all_rows = sort_by_age-Perm ws;
  by_age = sort_by_age-AreByAge ws;
}

-- The one row that a test selects is the one that passes it.
no_row :
    (p : Webhook → Bool) (w : Webhook) (d : Rows)
    → select p d ≡ []
    → All (λ v. p v ≡ true → v ≡ w) d
no_row p w [] h = tt
no_row p w (v ∷ d) h = elim (Bool-cases (p v)) [
  | inl e ↦ (let h' : v ∷ select p d ≡ [] = rw e at h in cc)
  | inr e ↦ (λ k. (let b : false ≡ true = sym e ∙ k in cc), no_row p w d (rw e at h))
]

one_row :
    (p : Webhook → Bool) (w : Webhook) (d : Rows)
    → only_row (select p d) ≡ ok w
    → All (λ v. p v ≡ true → v ≡ w) d
one_row p w [] h = tt
one_row p w (v ∷ d) h = elim (Bool-cases (p v)) [
  | inl e ↦ of e (select p d) refl (rw e at h)
  | inr e ↦ (λ k. (let b : false ≡ true = sym e ∙ k in cc), one_row p w d (rw e at h))
]
  where
    of :
        p v ≡ true
        → (rest : Rows) → select p d ≡ rest
        → only_row (v ∷ rest) ≡ ok w
        → All (λ u. p u ≡ true → u ≡ w) (v ∷ d)
    of e [] k h' = (λ _. ok-injective h', no_row p w d k)
    of e (u ∷ us) k h' = cc

chosen : (p : Webhook → Bool) (w : Webhook) (d : Rows) → only_row (select p d) ≡ ok w → p w ≡ true
chosen p w [] h = cc
chosen p w (v ∷ d) h = elim (Bool-cases (p v)) [
  | inl e ↦ of e (select p d) (rw e at h)
  | inr e ↦ chosen p w d (rw e at h)
]
  where
    of : p v ≡ true → (rest : Rows) → only_row (v ∷ rest) ≡ ok w → p w ≡ true
    of e [] h' = subst (λ u. p u ≡ true) (ok-injective h') e
    of e (u ∷ us) h' = cc

-- A chosen row is there.
there :
    (p : Webhook → Bool) (w : Webhook) (d : Rows) → only_row (select p d) ≡ ok w → any p d ≡ true
there p w [] h = cc
there p w (v ∷ d) h = elim (Bool-cases (p v)) [
  | inl e ↦ rw e refl
  | inr e ↦ rw e (there p w d (rw e at h))
]

saved :
    (w v : Webhook) (d : Rows)
    → any (has_id w.id) d ≡ true
    → (memory.update w d).0 ≡ ok v
    → (v ≡ stamped w v.updated_at)
      × ((memory.update w d).1 ≡ map (λ u. if text_eq u.id w.id then v else u) d)
saved w v d h e =
    let k : stamped w (now d) ≡ v = ok-injective e in
    (
      sym k ∙ ap (λ u. stamped w u.updated_at) k,
      rw h (ap (λ x. map (λ u. if text_eq u.id w.id then x else u) d) k),
    )

pub memory-Laws : Laws memory in_order
memory-Laws = record {
  list_rows = λ i d {ws} e.
      subst (λ us. IsListing us (select (owned i) d)) (ok-injective e)
        (sort_by_age-IsListing (select (owned i) d));
  get_id = λ id d {w} e. text_eq→eq w.id id (chosen (has_id id) w d e);
  get_key = λ id d {w} e. (there (has_id id) w d e, one_row (has_id id) w d e);
  count_rows = λ i d e. sym (ok-injective e);
  create_row = λ w d e.
      (sym (ap (λ v. v.instance_id) (ok-injective e)), ap (λ v. d ++ v ∷ []) (ok-injective e));
  create_fails = λ w d e. cc;
  update_rows = λ w d {v} h e. saved w v d h e;
  update_fails = λ w d e. cc;
  delete_rows = λ id i d e. refl;
  delete_fails = λ id i d e. cc;
  clear_rows = λ i d e. refl;
  clear_fails = λ i d e. cc;
}
