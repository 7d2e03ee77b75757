-- ===== src/Instances/Subscribed.antt =====
-- Connect of pkg/instance/service/instance_service.go with CallWebhook of
-- pkg/whatsmeow/service/whatsmeow.go: the events that a client asks for are those that it gets.
use webapp_wago.Base.{
  ℕ, Bool, true, false, not, ◌||◌, List, [], ◌∷◌, all, All, all-All, select-All, select,
  if◌then◌else◌, ◌≡◌, refl, ap, sym, subst, ◌∙◌, arith, inl, inr, Bool-cases, ◌==◌, Result, ok, err,
  ok-injective, Option, none, some,
}
use webapp_wago.Base.Text.{Text, codes, text_eq, text_eq→eq, split, join}
use webapp_wago.Base.Containment.{Lacks}
use webapp_wago.Base.Splitting.{split-join}
use webapp_wago.EventTypes.{all_event_types, is_event_type}
use webapp_wago.Routing.{find, contains, subscriptions_of}
use webapp_wago.Routing.Subscribing.{names, name-All, IsName, contains-subscriptions_of}
use webapp_wago.Instances.{Instance}
use webapp_wago.Instances.Store.{Gorm, DbFailure, update}
use webapp_wago.Instances.Sessions.{
  Setting, Whatsmeow, Sessions, Failure, at_key, launch, update_instance_settings,
}
use webapp_wago.Instances.Service.{
  ConnectStruct, subscribed_events, configured, told, proxy_choice, connect_with, connect_stored,
  connect,
}

lacks_lem : (c : ℕ) (s : Text) → all (λ d. not (d == c)) s ≡ true → Lacks c s
lacks_lem c [] h = tt
lacks_lem c (d ∷ s) h = elim (Bool-cases (d == c)) [
  | inl e ↦ cc
  | inr e ↦ ((λ k. absurd (ground arith)), lacks_lem c s (rw e at h))
]

-- No name of an event has a comma.
name-Lacks : (x : Text) → IsName x → Lacks b',' x
unfolding codes
name-Lacks x h = lacks_lem b',' x (
    name-All (λ y. all (λ d. not (d == b',')) y ≡ true) x h
      (all-All (λ y. all (λ d. not (d == b',')) y) names refl))

names-Lacks : (xs : List Text) → All IsName xs → All (Lacks b',') xs
names-Lacks [] h = tt
names-Lacks (x ∷ xs) (hx, h) = (name-Lacks x hx, names-Lacks xs h)

not_name : (x c : Text) → is_event_type x ≡ false → IsName c → text_eq x c ≡ false
not_name x c e hc = elim (Bool-cases (text_eq x c)) [
  | inl t ↦ (let k : is_event_type x ≡ true = ap is_event_type (text_eq→eq x c t) ∙ hc in cc)
  | inr f ↦ f
]

no_name : is_event_type [] ≡ false
unfolding is_event_type text_eq codes
no_name = refl

find_joined :
    (c : Text) (evs : List Text)
    → IsName c
    → All IsName evs
    → find (split b',' (join b',' evs)) c ≡ find evs c
unfolding join split find
find_joined c [] hc h = rw (not_name [] c no_name hc) refl
find_joined c (e ∷ evs) hc h =
    ap (λ xs. find xs c) (split-join b',' e evs (names-Lacks (e ∷ evs) h))

-- What a list in the body of a request asks for.
abbrev pub chosen : List Text → Text → Bool
chosen [] c = text_eq (codes "MESSAGE") c
chosen (e ∷ es) c = if text_eq e (codes "ALL") then find all_event_types c else find (e ∷ es) c

find-select : (c : Text) (xs : List Text) → IsName c → find (select is_event_type xs) c ≡ find xs c
unfolding find
find-select c [] hc = refl
find-select c (x ∷ xs) hc = elim (Bool-cases (is_event_type x)) [
  | inl e ↦ rw e (ap (λ b. text_eq x c || b) (find-select c xs hc))
  | inr e ↦ rw (e, not_name x c e hc) (find-select c xs hc)
]

or_false : (b : Bool) → (b || false) ≡ b
or_false true = refl
or_false false = refl

subscribed_events-IsName : (es : List Text) → All IsName (subscribed_events es)
unfolding subscribed_events is_event_type
subscribed_events-IsName [] = (refl, tt)
subscribed_events-IsName (e ∷ es) = elim (Bool-cases (text_eq e (codes "ALL"))) [
  | inl k ↦ rw k (all-All is_event_type all_event_types refl)
  | inr k ↦ rw k (select-All is_event_type (e ∷ es))
]

find-subscribed_events :
    (es : List Text) (c : Text) → IsName c → find (subscribed_events es) c ≡ chosen es c
unfolding subscribed_events find
find-subscribed_events [] c hc = or_false (text_eq (codes "MESSAGE") c)
find-subscribed_events (e ∷ es) c hc = elim (Bool-cases (text_eq e (codes "ALL"))) [
  | inl k ↦ rw k refl
  | inr k ↦ rw k (find-select c (e ∷ es) hc)
]

module _ {D E W : Type 0} (g : Gorm D E) (lib : Whatsmeow W) (set : Setting)
    (meanwhile : Sessions D W → Sessions D W) (body : ConnectStruct) where
  launched :
      (i i' : Instance) (subs : List Text) (p : Option Bool) (s : Sessions D W)
      → (told g lib set meanwhile i (launch g lib set i subs body.phone p s)).0 ≡ ok i'
      → i ≡ i'
  launched i i' subs none s e = cc
  launched i i' subs (some b) s e = ok-injective e

  updated :
      (i i' : Instance) (r : Result (Failure E) (Unit {0}) × Sessions D W)
      → (connect_with g lib set meanwhile body i r).0 ≡ ok i'
      → i ≡ i'
  updated i i' (ok u, s) e = ok-injective e
  updated i i' (err f, s) e =
      launched i i' (subscribed_events body.subscribe) (proxy_choice g lib set meanwhile i.proxy)
        (record s { kills = at_key i.id true s.kills }) e

  saved :
      (i i' : Instance) (r : Result (DbFailure E) (Unit {0}) × D) (s : Sessions D W)
      → (connect_stored g lib set meanwhile body i r s).0 ≡ ok i'
      → i ≡ i'
  saved i i' (err f, d) s e = cc
  saved i i' (ok u, d) s e =
      updated i i' (update_instance_settings g lib set i.id (record s { db = d })) e

  stored_lem :
      (i i' : Instance) (s : Sessions D W) (r : Result (DbFailure E) (Unit {0}) × D)
      → update g i s.db ≡ r
      → (connect_stored g lib set meanwhile body i r s).0 ≡ ok i'
      → (d : D) × (update g i' s.db ≡ (ok tt, d))
        × (connect_stored g lib set meanwhile body i r s
            ≡ connect_with g lib set meanwhile body i'
                (update_instance_settings g lib set i'.id (record s { db = d })))
  stored_lem i i' s (err f, d) q e = cc
  stored_lem i i' s (ok u, d) q e =
      let same : i ≡ i' = saved i i' (ok u, d) s e in
      (
        d,
        subst (λ k. update g k s.db ≡ (ok tt, d)) same q,
        ap
            (λ k.
              connect_with g lib set meanwhile body k
                (update_instance_settings g lib set k.id (record s { db = d })))
            same,
      )

  -- When Connect succeeds, the instance that it gives back is saved, and the rest of Connect runs on
  -- the database with it; and an event type counts as subscribed for it exactly where the list in
  -- the body asks for it: the empty list for messages, one that begins with ALL for all the event
  -- types but ALL itself, and any other for its elements.
  pub connect-chosen :
      (i i' : Instance) (s : Sessions D W) (c : Text)
      → (connect g lib set meanwhile body i s).0 ≡ ok i'
      → IsName c
      → (contains (subscriptions_of i'.events) c ≡ chosen body.subscribe c)
        × ((d : D) × (update g i' s.db ≡ (ok tt, d))
            × (connect g lib set meanwhile body i s
                ≡ connect_with g lib set meanwhile body i'
                    (update_instance_settings g lib set i'.id (record s { db = d }))))
  unfolding connect
  connect-chosen i i' s c done hc =
      let j : Instance = configured g lib set meanwhile body i in
      (
        contains-subscriptions_of c hc i'.events
            ∙ ap (λ (k : Instance). find (split b',' k.events) c)
                (sym (saved j i' (update g j s.db) s done))
            ∙ find_joined c (subscribed_events body.subscribe) hc
                (subscribed_events-IsName body.subscribe)
            ∙ find-subscribed_events body.subscribe c hc,
        stored_lem j i' s (update g j s.db) refl done,
      )
