-- ===== src/Webhook/Limits.antt =====
-- The webhooks of an instance under any sequence of operations: how many, and whose.
use webapp_wago.Base.{
  suc, ◌+◌, ◌≤◌, Bool, true, false, List, [], ◌∷◌, append-nil, map, select, select-append, length,
  length-append, length-select-le, All, if◌then◌else◌, ◌≡◌, ◌⊎◌, inl, inr, refl, sym, ap, subst,
  ◌∙◌, arith, Bool-cases,
}
use webapp_wago.Base.Text.{Text, text_eq, text_eq→eq, text_eq_refl}
use webapp_wago.Webhook.{Webhook}
use webapp_wago.Webhook.Store.{Repository, Table, Laws, rows_of, owned}
use webapp_wago.Webhook.Service.{State, Surroundings}
use webapp_wago.Webhook.Steps.{
  Op, instance_of, step, steps, Changed, same, added, replaced, removed, step-Changed,
}

abbrev replace : Webhook → Webhook → Webhook
replace w v = if text_eq v.id w.id then w else v

other : (i j : Text) (w : Webhook) → text_eq i j ≡ false → w.instance_id ≡ i → owned j w ≡ false
other i j w h e = rw e h

-- Replacing rows of one instance by a row of that instance changes no other instance's rows.
replace_others :
    (i j : Text) (w : Webhook) (ws : List Webhook)
    → text_eq i j ≡ false
    → w.instance_id ≡ i
    → All (λ v. text_eq v.id w.id ≡ true → v.instance_id ≡ i) ws
    → select (owned j) (map (replace w) ws) ≡ select (owned j) ws
replace_others i j w [] h e a = refl
replace_others i j w (v ∷ ws) h e (hv, a) = elim (Bool-cases (text_eq v.id w.id)) [
  | inl k ↦ rw (k, other i j w h e, other i j v h (hv k)) (replace_others i j w ws h e a)
  | inr k ↦ rw (k, replace_others i j w ws h e a) refl
]

keep_others :
    (i j : Text) (keep : Webhook → Bool) (ws : List Webhook)
    → text_eq i j ≡ false
    → ((v : Webhook) → owned i v ≡ false → keep v ≡ true)
    → select (owned j) (select keep ws) ≡ select (owned j) ws
keep_others i j keep [] h k = refl
keep_others i j keep (v ∷ ws) h k = elim (Bool-cases (keep v)) [
  | inl e ↦ rw (e, keep_others i j keep ws h k) refl
  | inr e ↦ rw (e, not_j e (Bool-cases (owned i v))) (keep_others i j keep ws h k)
]
  where
    not_j : keep v ≡ false → ((owned i v ≡ true) ⊎ (owned i v ≡ false)) → owned j v ≡ false
    not_j e (inl o) = other i j v h (text_eq→eq v.instance_id i o)
    not_j e (inr o) = absurd (let b : false ≡ true = sym e ∙ k v o in cc)

Changed-others :
    (i j : Text) (old new : List Webhook)
    → text_eq i j ≡ false
    → Changed i old new
    → select (owned j) new ≡ select (owned j) old
Changed-others i j old new h (same e) = ap (select (owned j)) e
Changed-others i j old new h (added v k l e) =
    ap (select (owned j)) e
    ∙ select-append (owned j) old (v ∷ [])
    ∙ rw (other i j v h k) (append-nil (select (owned j) old))
Changed-others i j old new h (replaced w k a e) =
    ap (select (owned j)) e ∙ replace_others i j w old h k a
Changed-others i j old new h (removed keep k e) =
    ap (select (owned j)) e ∙ keep_others i j keep old h k

replace_own :
    (i : Text) (w : Webhook) (ws : List Webhook)
    → w.instance_id ≡ i
    → All (λ v. text_eq v.id w.id ≡ true → v.instance_id ≡ i) ws
    → length (select (owned i) (map (replace w) ws)) ≡ length (select (owned i) ws)
replace_own i w [] e a = refl
replace_own i w (v ∷ ws) e (hv, a) = elim (Bool-cases (text_eq v.id w.id)) [
  | inl k ↦ rw (k, own w e, own v (hv k)) (ap suc (replace_own i w ws e a))
  | inr k ↦ rw k (onto (owned i v) _ _ (replace_own i w ws e a))
]
  where
    own : (u : Webhook) → u.instance_id ≡ i → owned i u ≡ true
    own u k = rw k (text_eq_refl i)

    onto :
        (b : Bool) (xs ys : List Webhook)
        → length xs ≡ length ys
        → length (if b then v ∷ xs else xs) ≡ length (if b then v ∷ ys else ys)
    onto true xs ys k = ap suc k
    onto false xs ys k = k

select-select_le :
    (p keep : Webhook → Bool) (ws : List Webhook)
    → length (select p (select keep ws)) ≤ length (select p ws)
select-select_le p keep [] = omega arith
select-select_le p keep (v ∷ ws) = ground (arith, select-select_le p keep ws)

Changed-limit :
    (i : Text) (old new : List Webhook)
    → Changed i old new
    → length (select (owned i) old) ≤ 20
    → length (select (owned i) new) ≤ 20
Changed-limit i old new (same e) h = rw e h
Changed-limit i old new (added v k l e) h =
    let one : length (select (owned i) (v ∷ [])) ≤ 1 = length-select-le (owned i) (v ∷ []) in
    let all_of : length (select (owned i) new)
        ≡ length (select (owned i) old) + length (select (owned i) (v ∷ [])) =
      ap (λ ws. length (select (owned i) ws)) e
      ∙ ap length (select-append (owned i) old (v ∷ []))
      ∙ length-append (select (owned i) old) (select (owned i) (v ∷ [])) in
    omega (arith, one, all_of, l)
Changed-limit i old new (replaced w k a e) h =
    let all_of : length (select (owned i) new) ≡ length (select (owned i) old) =
      ap (λ ws. length (select (owned i) ws)) e ∙ replace_own i w old k a in
    omega (arith, all_of, h)
Changed-limit i old new (removed keep k e) h =
    let all_of = ap (λ ws. length (select (owned i) ws)) e in
    omega (arith, all_of, h, select-select_le (owned i) keep old)

module _ {D E : Type 0} (r : Repository D E) (t : Table D) (laws : Laws r t)
    (env : Surroundings) where
  -- An operation on one instance leaves the rows of every other instance as they are, also when
  -- it is given the identity of a row of that instance.
  pub step_isolated :
      (op : Op) (s : State D) (j : Text)
      → text_eq (instance_of op) j ≡ false
      → rows_of t j (step r env op s).db ≡ rows_of t j s.db
  step_isolated op s j h =
      Changed-others (instance_of op) j (t.rows s.db) _ h (step-Changed r t laws env op s)

  step_limited :
      (op : Op) (s : State D)
      → ((j : Text) → length (rows_of t j s.db) ≤ 20)
      → (j : Text) → length (rows_of t j (step r env op s).db) ≤ 20
  step_limited op s h j = elim (Bool-cases (text_eq (instance_of op) j)) [
    | inl e ↦
        subst (λ i. length (rows_of t i (step r env op s).db) ≤ 20)
          (text_eq→eq (instance_of op) j e)
          (Changed-limit (instance_of op) (t.rows s.db) _ (step-Changed r t laws env op s)
            (h (instance_of op)))
    | inr e ↦ subst (λ n. n ≤ 20) (ap length (sym (step_isolated op s j e))) (h j)
  ]

  -- Operations that run one after the other, whatever they are and whatever fails, never leave an
  -- instance with more than twenty webhooks if none had more before.
  pub steps_limited :
      (ops : List Op) (s : State D)
      → ((j : Text) → length (rows_of t j s.db) ≤ 20)
      → (j : Text) → length (rows_of t j (steps r env ops s).db) ≤ 20
  unfolding steps
  steps_limited [] s h = h
  steps_limited (op ∷ ops) s h = steps_limited ops (step r env op s) (step_limited op s h)
