-- ===== src/Producers/Posting.antt =====
-- pkg/events/webhook/webhook_producer.go: when the retries stop, and what they report.
use webapp_wago.Base.{
  ℕ, zero, suc, ◌+◌, ◌<◌, Bool, true, false, List, ◌∷◌, replicate, ◌≡◌, ◌⊎◌, inl, inr, refl, ap,
  ◌∙◌, arith, Bool-cases,
}
use webapp_wago.Producers.Http.{
  Post, Answer, is_delivered, retry_loop, webhook_retries, send_webhook_with_retry,
}

module _ (network : ℕ → Post → Answer) (p : Post) where
  -- The attempt that follows `k` others is answered with a status from 200 to 299 and a body.
  abbrev pub works : ℕ → Bool
  works k = is_delivered (network k p)

  -- None of the `n` attempts from `i` on works.
  abbrev pub AllFail : ℕ → ℕ → Type 0
  AllFail n i = (k : ℕ) → k < n → works (i + k) ≡ false

  AllFail-suc : (n i : ℕ) → works i ≡ false → AllFail n (suc i) → AllFail (suc n) i
  AllFail-suc n i e h zero lt = ap (λ l. works l) (let z : i + 0 ≡ i = omega arith in z) ∙ e
  AllFail-suc n i e h (suc k) lt =
      ap (λ l. works l) (let z : i + suc k ≡ suc i + k = omega arith in z) ∙ h k (omega arith)

  -- From the attempt `i` on, the posts stop at the first that works and report it, or all `n`
  -- attempts fail and are made.
  abbrev pub StopsRight : ℕ → ℕ → List Post × Bool → Type 0
  StopsRight n i (posts, done) =
      ((last : ℕ) × (last < n)
        × AllFail last i
        × (works (i + last) ≡ true)
        × (posts ≡ replicate (suc last) p)
        × (done ≡ true))
      ⊎ (AllFail n i × (posts ≡ replicate n p) × (done ≡ false))

  StopsRight-suc :
      (n i : ℕ) (r : List Post × Bool)
      → works i ≡ false
      → StopsRight n (suc i) r
      → StopsRight (suc n) i (p ∷ r.0, r.1)
  StopsRight-suc n i r e (inl (last, lt, fail, good, posts, done)) = inl (
    suc last,
    omega arith,
    AllFail-suc last i e fail,
    ap (λ l. works l) (let z : i + suc last ≡ suc i + last = omega arith in z) ∙ good,
    ap (λ ps. p ∷ ps) posts,
    done,
  )
  StopsRight-suc n i r e (inr (fail, posts, done)) =
      inr (AllFail-suc n i e fail, ap (λ ps. p ∷ ps) posts, done)

  retry_loop-StopsRight : (n i : ℕ) → StopsRight n i (retry_loop network n i p)
  unfolding retry_loop
  retry_loop-StopsRight zero i = inr ((λ k lt. absurd (omega arith)), refl, refl)
  retry_loop-StopsRight (suc n) i = elim (Bool-cases (works i)) [
    | inl e ↦ rw e (
        inl (
          0,
          omega arith,
          (λ k lt. absurd (omega arith)),
          ap (λ l. works l) (let z : i + 0 ≡ i = omega arith in z) ∙ e,
          refl,
          refl,
        ))
    | inr e ↦
        rw e
          (StopsRight-suc n i (retry_loop network n (suc i) p) e (retry_loop-StopsRight n (suc i)))
  ]

  -- sendWebhookWithRetry stops: after the first of its attempts that is answered with a status
  -- from 200 to 299 and a readable body, and then reports success, or after exactly five that were
  -- not, and then reports failure.
  pub send_webhook_with_retry-StopsRight :
      StopsRight webhook_retries 0 (send_webhook_with_retry network p)
  unfolding send_webhook_with_retry
  send_webhook_with_retry-StopsRight = retry_loop-StopsRight webhook_retries 0
