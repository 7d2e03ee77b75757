-- ===== src/Events/Polling.antt =====
-- What `Poll` of internal/events/buffer.go takes and what it leaves, and delivery over a whole run.
use webapp_wago.Base.{
  ℕ, zero, suc, ◌-◌, ◌≤◌, ◌≡◌, refl, sym, ap, ap₂, ◌∙◌, true, false, List, [], ◌∷◌, ◌++◌, arith,
  length, take, select, subst, length-append, and-true, and-false, take-nil, take-cons, Bool-cases,
  inl, inr,
}
use mathlib.Core.List.{append_assoc, append-nil}
use webapp_wago.Base.Int.{ℤ, pos, negsuc, le_zero}
use webapp_wago.Base.Text.{Text}
use webapp_wago.Events.{Event, Buffer, selected, has_room, takes, poll_loop, poll_loop_cases, poll}

-- The third list is the first two shuffled together, each in its order.
pub data Merge {ℓ} {A : Type ℓ} : List A → List A → List A → Type ℓ where
  done : Merge [] [] []
  left : {x : A} {xs ys zs : List A} → Merge xs ys zs → Merge (x ∷ xs) ys (x ∷ zs)
  right : {y : A} {xs ys zs : List A} → Merge xs ys zs → Merge xs (y ∷ ys) (y ∷ zs)

-- The first elements that a limit admits; a limit that is not positive admits all.
abbrev pub quota {ℓ} : {A : Type ℓ} → ℤ → List A → List A
quota (pos zero) xs = xs
quota (pos (suc n)) xs = take (suc n) xs
quota (negsuc n) xs = xs

-- What the loop adds to its two accumulators.
abbrev Splits : List Event → List Event → List Event → List Event × List Event → Type 0
Splits q out rest r =
    (t : List Event) × (k : List Event) × (r ≡ (out ++ t, rest ++ k)) × Merge t k q

poll_loop-Splits :
    (f : Text) (l : ℤ) (q out rest : List Event) → Splits q out rest (poll_loop f l q out rest)
unfolding poll_loop
poll_loop-Splits f l [] out rest =
    ([], [], ap₂ (λ a b. (a, b)) (sym (append-nil out)) (sym (append-nil rest)), done)
poll_loop-Splits f l (e ∷ q) out rest =
    poll_loop_cases (Splits (e ∷ q) out rest) f l e q out rest
      (λ _.
        let (t, k, same, m) = poll_loop-Splits f l q (out ++ e ∷ []) rest in
        (e ∷ t, k, same ∙ ap (λ a. (a, rest ++ k)) (append_assoc out (e ∷ []) t), left m))
      (λ _.
        let (t, k, same, m) = poll_loop-Splits f l q out (rest ++ e ∷ []) in
        (t, e ∷ k, same ∙ ap (λ a. (out ++ t, a)) (append_assoc rest (e ∷ []) k), right m))

-- With no limit, all that match are taken.
poll_loop_all :
    (f : Text) (l : ℤ) (q out rest : List Event)
    → le_zero l ≡ true
    → (poll_loop f l q out rest).0 ≡ out ++ select (selected f) q
unfolding poll_loop
poll_loop_all f l [] out rest z = sym (append-nil out)
poll_loop_all f l (e ∷ q) out rest z =
    poll_loop_cases (λ r. r.0 ≡ out ++ select (selected f) (e ∷ q)) f l e q out rest
      (λ t.
        rw ((and-true (selected f e) (has_room l (length out)) t).0)
          (poll_loop_all f l q (out ++ e ∷ []) rest z ∙ append_assoc out (e ∷ []) _))
      (λ t.
        rw (and-false (selected f e) (has_room l (length out)) t (rw z refl))
          (poll_loop_all f l q out (rest ++ e ∷ []) z))

room→le : (n k : ℕ) → has_room (pos (suc n)) k ≡ true → 1 ≤ suc n - k
room→le n k h = ground arith

no_room→eq : (n k : ℕ) → has_room (pos (suc n)) k ≡ false → suc n - k ≡ 0
no_room→eq n k h = ground arith

-- With a limit, the first that match are taken, up to it.
poll_loop_some :
    (f : Text) (n : ℕ) (q out rest : List Event)
    → (poll_loop f (pos (suc n)) q out rest).0
      ≡ out ++ take (suc n - length out) (select (selected f) q)
unfolding poll_loop
poll_loop_some f n [] out rest =
    sym (append-nil out) ∙ ap (◌++◌ out) (sym (take-nil (suc n - length out)))
poll_loop_some f n (e ∷ q) out rest =
    let ms = select (selected f) q in
    poll_loop_cases (λ r. r.0 ≡ out ++ take (suc n - length out) (select (selected f) (e ∷ q))) f
      (pos (suc n)) e q out rest
      (λ t.
        let (chosen, room) = and-true (selected f e) (has_room (pos (suc n)) (length out)) t in
        rw chosen (
          poll_loop_some f n q (out ++ e ∷ []) rest
          ∙ append_assoc out (e ∷ []) _
          ∙ ap (λ m. out ++ e ∷ take m ms) (omega (arith, length-append out (e ∷ [])))
          ∙ ap (◌++◌ out)
              (sym (take-cons (suc n - length out) e ms (room→le n (length out) room)))))
      (λ t. poll_loop_some f n q out (rest ++ e ∷ []) ∙ ap (◌++◌ out) (skipped t))
  where
    skipped :
        takes f (pos (suc n)) out e ≡ false
        → take (suc n - length out) (select (selected f) q)
          ≡ take (suc n - length out) (select (selected f) (e ∷ q))
    skipped t = elim (Bool-cases (has_room (pos (suc n)) (length out))) [
      | inl room ↦ rw (and-false (selected f e) (has_room (pos (suc n)) (length out)) t room) refl
      | inr full ↦ rw (no_room→eq n (length out) full) refl
    ]

poll_loop-quota :
    (f : Text) (l : ℤ) (q : List Event)
    → (poll_loop f l q [] []).0 ≡ quota l (select (selected f) q)
poll_loop-quota f (pos zero) q = poll_loop_all f (pos zero) q [] [] refl
poll_loop-quota f (pos (suc n)) q =
    poll_loop_some f n q [] []
    ∙ ap (λ m. take m (select (selected f) q)) (let e : suc n - 0 ≡ suc n = omega arith in e)
poll_loop-quota f (negsuc n) q = poll_loop_all f (negsuc n) q [] [] refl

poll_loop-Merge :
    (f : Text) (l : ℤ) (q : List Event)
    → Merge (poll_loop f l q [] []).0 (poll_loop f l q [] []).1 q
poll_loop-Merge f l q =
    let (t, k, same, m) = poll_loop-Splits f l q [] [] in subst (λ r. Merge r.0 r.1 q) (sym same) m

-- `Poll` returns the oldest events that the filter selects, as many as the limit admits and all of
-- them where it is not positive; these and the events that stay are the old queue, each in its
-- order and none lost or doubled; and the capacity stays.
pub poll_lem :
    (f : Text) (l : ℤ) (b : Buffer)
    → ((poll f l b).0 ≡ quota l (select (selected f) b.q))
      × Merge (poll f l b).0 (poll f l b).1.q b.q
      × ((poll f l b).1.cap ≡ b.cap)
unfolding poll
poll_lem f l b = (poll_loop-quota f l b.q, poll_loop-Merge f l b.q, refl)
