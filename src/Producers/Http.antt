-- ===== src/Producers/Http.antt =====
-- pkg/events/webhook/webhook_producer.go: posts to the global address and to that of a webhook,
-- each with up to five attempts. The network is told how many posts came before.
use webapp_wago.Base.{
  ℕ, zero, suc, Bool, true, false, not, ◌&&◌, List, [], ◌∷◌, ◌++◌, is_empty, length, ltb, leb,
  if◌then◌else◌,
}
use webapp_wago.Base.Text.{Text, split}

pub record Post : Type 0 where
  pub url : Text
  pub body : Text

-- `sendWebhook`: no response, or a status, with whether the body could be read.
pub data Answer : Type 0 where
  no_answer : Answer
  answered : ℕ → Bool → Answer

unfoldable pub is_delivered : Answer → Bool
is_delivered no_answer = false
is_delivered (answered status readable) = readable && (not (ltb status 200) && not (leb 300 status))

-- The loop of `sendWebhookWithRetry`: the posts it makes, and whether the last one was delivered.
unfoldable pub retry_loop : (ℕ → Post → Answer) → ℕ → ℕ → Post → List Post × Bool
unfolding is_delivered
retry_loop network zero i p = ([], false)
retry_loop network (suc n) i p =
    let (posts, done) = retry_loop network n (suc i) p in
    if is_delivered (network i p) then (p ∷ [], true) else (p ∷ posts, done)

abbrev pub webhook_retries : ℕ
webhook_retries = 5

unfoldable pub send_webhook_with_retry : (ℕ → Post → Answer) → Post → List Post × Bool
unfolding retry_loop
send_webhook_with_retry network p = retry_loop network webhook_retries 0 p

-- `Produce`: the addresses to which a goroutine starts to send; the error is always nil.
unfoldable pub produce : Text → Text → Text → Text → List Post
unfolding split
produce global_url queue payload webhook_url =
    if ltb (length (split b'.' queue)) 2
    then []
    else (if is_empty global_url then [] else record { url = global_url; body = payload } ∷ [])
      ++ (if is_empty webhook_url then [] else record { url = webhook_url; body = payload } ∷ [])
