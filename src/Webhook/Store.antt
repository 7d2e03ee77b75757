-- ===== src/Webhook/Store.antt =====
-- pkg/webhook/repository/webhook_repository.go: the table of webhooks, which gorm and the
-- database keep. Its operations are parameters, and what is relied on are the laws.
use webapp_wago.Base.{
  ℕ, ◌≤◌, Bool, true, not, any, ◌&&◌, List, [], ◌∷◌, ◌++◌, map, select, length, All, Result, ok,
  err, ◌≡◌, if◌then◌else◌,
}
use mathlib.Core.List.{Perm}
use webapp_wago.Base.Text.{Text, text_eq}
use webapp_wago.Webhook.{Webhook}

abbrev pub owned : Text → Webhook → Bool
owned i w = text_eq w.instance_id i

abbrev pub has_id : Text → Webhook → Bool
has_id id w = text_eq w.id id

-- `WebhookRepository`: `D` is the database with all that decides whether a query fails.
pub record Repository (D E : Type 0) : Type 0 where
  pub list : Text → D → Result E (List Webhook)
  pub get : Text → D → Result E Webhook
  pub create : Webhook → D → Result E Webhook × D
  pub update : Webhook → D → Result E Webhook × D
  pub delete : Text → Text → D → Result E (Unit {0}) × D
  pub delete_by_instance : Text → D → Result E (Unit {0}) × D
  pub count_by_instance : Text → D → Result E ℕ

-- What the table holds.
pub record Table (D : Type 0) : Type 0 where
  pub rows : D → List Webhook

abbrev pub rows_of : {D : Type 0} → Table D → Text → D → List Webhook
rows_of t i d = select (owned i) (t.rows d)

-- Each row comes no later than those behind it.
abbrev pub AreByAge : List Webhook → Type 0
AreByAge [] = Unit
AreByAge (w ∷ ws) = All (λ v. w.created_at ≤ v.created_at) ws × AreByAge ws

-- The answer of a query with `Order("created_at asc")`: the rows, the older ones first, those of one
-- time in any order.
pub record IsListing (ws rows : List Webhook) : Type 0 where
  pub all_rows : Perm ws rows
  pub by_age : AreByAge ws

-- `Save` sets the time of the change.
abbrev pub stamped : Webhook → ℕ → Webhook
stamped w now = record w { updated_at = now }

-- A statement that fails changes no row. `Save` replaces the row of which the key is there, and
-- inserts where there is none.
pub record Laws {D : Type 0} {E : Type 0} (r : Repository D E) (t : Table D) : Type 0 where
  pub list_rows :
      (i : Text) (d : D) {ws : List Webhook} → r.list i d ≡ ok ws → IsListing ws (rows_of t i d)
  pub get_id : (id : Text) (d : D) {w : Webhook} → r.get id d ≡ ok w → w.id ≡ id
  pub get_key :
      (id : Text) (d : D) {w : Webhook}
      → r.get id d ≡ ok w
      → (any (has_id id) (t.rows d) ≡ true) × All (λ v. text_eq v.id id ≡ true → v ≡ w) (t.rows d)
  pub count_rows :
      (i : Text) (d : D) {n : ℕ} → r.count_by_instance i d ≡ ok n → n ≡ length (rows_of t i d)
  pub create_row :
      (w : Webhook) (d : D) {v : Webhook}
      → (r.create w d).0 ≡ ok v
      → (v.instance_id ≡ w.instance_id) × (t.rows (r.create w d).1 ≡ t.rows d ++ v ∷ [])
  pub create_fails :
      (w : Webhook) (d : D) {e : E} → (r.create w d).0 ≡ err e → t.rows (r.create w d).1 ≡ t.rows d
  pub update_rows :
      (w : Webhook) (d : D) {v : Webhook}
      → any (has_id w.id) (t.rows d) ≡ true
      → (r.update w d).0 ≡ ok v
      → (v ≡ stamped w v.updated_at)
        × (t.rows (r.update w d).1 ≡ map (λ u. if text_eq u.id w.id then v else u) (t.rows d))
  pub update_fails :
      (w : Webhook) (d : D) {e : E} → (r.update w d).0 ≡ err e → t.rows (r.update w d).1 ≡ t.rows d
  pub delete_rows :
      (id i : Text) (d : D)
      → (r.delete id i d).0 ≡ ok tt
      → t.rows (r.delete id i d).1 ≡ select (λ v. not (has_id id v && owned i v)) (t.rows d)
  pub delete_fails :
      (id i : Text) (d : D) {e : E}
      → (r.delete id i d).0 ≡ err e
      → t.rows (r.delete id i d).1 ≡ t.rows d
  pub clear_rows :
      (i : Text) (d : D)
      → (r.delete_by_instance i d).0 ≡ ok tt
      → t.rows (r.delete_by_instance i d).1 ≡ select (λ v. not (owned i v)) (t.rows d)
  pub clear_fails :
      (i : Text) (d : D) {e : E}
      → (r.delete_by_instance i d).0 ≡ err e
      → t.rows (r.delete_by_instance i d).1 ≡ t.rows d
