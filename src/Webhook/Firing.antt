-- ===== src/Webhook/Firing.antt =====
-- MatchesFilter of pkg/webhook/service/webhook_service.go against the conditions of its comment.
use webapp_wago.Base.{
  Bool, true, false, not, ◌&&◌, ◌||◌, List, [], ◌∷◌, ◌++◌, is_empty, any, any-Any, any_of_Any, Any,
  ◌≡◌, ◌≢◌, ◌↔◌, ◌⊎◌, inl, inr, refl, arith, Bool-cases, and-true, sym, subst, if◌then◌else◌, ◌∙◌,
}
use webapp_wago.Base.Text.{
  Text, codes, text_eq, text_eq→eq, text_eq_refl, has_suffix, equal_fold, to_lower,
}
use webapp_wago.Base.Containment.{has_suffix→append, has_suffix-append}
use webapp_wago.EventTypes.{all_name}
use webapp_wago.Webhook.{Webhook, chat_type_group, chat_type_individual}
use webapp_wago.Webhook.Glob.{glob}
use webapp_wago.Webhook.Filter.{
  match_events, match_chat_type, match_pattern_allowlist, match_entry, has_meta, Event,
  matches_filter, group_suffix,
}

abbrev pub EndsIn : Text → Text → Type 0
EndsIn s t = (p : Text) × (s ≡ p ++ t)

-- No event named means every event; `ALL` means every event; the letters' case is no matter.
abbrev pub IsListed : List Text → Text → Type 0
IsListed events event_type =
    (events ≡ []) ⊎ Any (λ e. (e ≡ all_name) ⊎ (to_lower e ≡ to_lower event_type)) events

abbrev pub IsKind : Text → Text → Type 0
IsKind chat_type jid =
    (chat_type ≡ chat_type_group → EndsIn jid group_suffix)
    × (chat_type ≡ chat_type_individual
        → (jid ≢ [])
          × ((EndsIn jid group_suffix → ⊥)
              × ((EndsIn jid (codes "@newsletter") → ⊥) × (EndsIn jid (codes "@broadcast") → ⊥))))

-- An empty list admits everything, another one never the missing value.
abbrev pub IsAdmitted : List Text → Text → Type 0
IsAdmitted allow value =
    (allow ≡ [])
    ⊎ ((value ≢ []) × Any (λ a. (a ≡ value) ⊎ ((has_meta a ≡ true) × (glob a value ≡ true))) allow)

abbrev pub IsFor : Webhook → Event → Type 0
IsFor w e =
    (w.enabled ≡ true)
    × ((e.is_from_me ≡ true → w.ignore_from_me ≡ false)
        × (IsListed w.events e.event_type
            × (IsKind w.chat_type e.chat_jid
                × (IsAdmitted w.chat_ids e.chat_jid
                    × (IsAdmitted w.senders e.sender_jid
                        × (IsAdmitted w.chat_names e.chat_name
                            × IsAdmitted w.sender_names e.sender_name))))))

pub Any-map {ℓ} :
    {A : Type ℓ} {P Q : A → Type 0} → ((x : A) → P x → Q x) → (xs : List A) → Any P xs → Any Q xs
Any-map f xs (b, x, a, e, p) = (b, x, a, e, f x p)

listed : (events : List Text) (t : Text) → (match_events events t ≡ true) ↔ IsListed events t
unfolding match_events equal_fold
listed [] t = (λ h. inl refl, λ h. refl)
listed (e ∷ es) t = (
  λ h. inr (Any-map to (e ∷ es) (any-Any _ (e ∷ es) h)),
  λ h. any_of_Any _ (e ∷ es) (Any-map from (e ∷ es) (some_case h)),
)
  where
    test : Text → Bool
    test e' = text_eq e' all_name || text_eq (to_lower e') (to_lower t)

    to :
        (e' : Text)
        → (text_eq e' all_name || text_eq (to_lower e') (to_lower t)) ≡ true
        → (e' ≡ all_name) ⊎ (to_lower e' ≡ to_lower t)
    to e' h = elim (Bool-cases (text_eq e' all_name)) [
      | inl k ↦ inl (text_eq→eq e' all_name k)
      | inr k ↦ inr (text_eq→eq (to_lower e') (to_lower t) (rw k at h))
    ]

    from :
        (e' : Text)
        → (e' ≡ all_name) ⊎ (to_lower e' ≡ to_lower t)
        → (text_eq e' all_name || text_eq (to_lower e') (to_lower t)) ≡ true
    from e' (inl k) = rw (k, text_eq_refl all_name) refl
    from e' (inr k) = rw (k, text_eq_refl (to_lower t)) (ground arith)

    some_case :
        IsListed (e ∷ es) t → Any (λ e'. (e' ≡ all_name) ⊎ (to_lower e' ≡ to_lower t)) (e ∷ es)
    some_case (inl k) = cc
    some_case (inr k) = k

ends : (s t : Text) → (has_suffix s t ≡ true) ↔ EndsIn s t
ends s t = (has_suffix→append s t, λ (p, e). rw e (has_suffix-append p t))

pub admitted :
    (allow : List Text) (v : Text) → (match_pattern_allowlist allow v ≡ true) ↔ IsAdmitted allow v
unfolding match_pattern_allowlist match_entry
admitted [] v = (λ h. inl refl, λ h. refl)
admitted (a ∷ allow) [] = (λ h. cc, of)
  where
    of : IsAdmitted (a ∷ allow) [] → false ≡ true
    of (inl e) = cc
    of (inr (n, h)) = absurd (n refl)
admitted (a ∷ allow) (c ∷ v) =
    (λ h. inr (λ e. cc, Any-map to (a ∷ allow) (any-Any (match_entry (c ∷ v)) (a ∷ allow) h)), of)
  where
    to :
        (b : Text)
        → match_entry (c ∷ v) b ≡ true
        → (b ≡ c ∷ v) ⊎ ((has_meta b ≡ true) × (glob b (c ∷ v) ≡ true))
    to b h = elim (Bool-cases (text_eq b (c ∷ v))) [
      | inl k ↦ inl (text_eq→eq b (c ∷ v) k)
      | inr k ↦ inr (and-true (has_meta b) (glob b (c ∷ v)) (rw k at h))
    ]

    from :
        (b : Text)
        → (b ≡ c ∷ v) ⊎ ((has_meta b ≡ true) × (glob b (c ∷ v) ≡ true))
        → match_entry (c ∷ v) b ≡ true
    from b (inl k) = rw (k, text_eq_refl (c ∷ v)) refl
    from b (inr (k, k')) = rw (k, k') (ground arith)

    of : IsAdmitted (a ∷ allow) (c ∷ v) → any (match_entry (c ∷ v)) (a ∷ allow) ≡ true
    of (inl e) = cc
    of (inr (n, h)) = any_of_Any (match_entry (c ∷ v)) (a ∷ allow) (Any-map from (a ∷ allow) h)

not_iff : {P : Type 0} (b : Bool) → (b ≡ true) ↔ P → (not b ≡ true) ↔ (P → ⊥)
not_iff true (f, g) = (λ h. cc, λ n. absurd (n (f refl)))
not_iff false (f, g) = (λ h p. (let e : false ≡ true = g p in cc), λ n. refl)

and_iff :
    {P Q : Type 0} (a b : Bool) → (a ≡ true) ↔ P → (b ≡ true) ↔ Q → ((a && b) ≡ true) ↔ (P × Q)
and_iff true b (f, g) (f', g') = (λ h. (f refl, f' h), λ (p, q). g' q)
and_iff false b (f, g) (f', g') = (λ h. cc, λ (p, q). g p)

guard_iff :
    {P Q : Type 0} (a b : Bool)
    → (a ≡ true) ↔ P
    → (b ≡ true) ↔ Q
    → ((if not a then false else b) ≡ true) ↔ (P × Q)
guard_iff true b (f, g) (f', g') = (λ h. (f refl, f' h), λ (p, q). g' q)
guard_iff false b (f, g) (f', g') = (λ h. cc, λ (p, q). g p)

own_iff :
    {Q : Type 0} (a i b : Bool)
    → (b ≡ true) ↔ Q
    → ((if a && i then false else b) ≡ true) ↔ ((a ≡ true → i ≡ false) × Q)
own_iff true true b (f, g) = (λ h. cc, λ (n, q). sym (n refl))
own_iff true false b (f, g) = (λ h. (λ e. refl, f h), λ (n, q). g q)
own_iff false i b (f, g) = (λ h. (λ e. cc, f h), λ (n, q). g q)

empty_iff : (s : Text) → (is_empty s ≡ true) ↔ (s ≡ [])
empty_iff [] = (λ h. refl, λ h. refl)
empty_iff (c ∷ s) = (λ h. cc, λ h. cc)

group-IsKind :
    (jid : Text) → (match_chat_type chat_type_group jid ≡ true) ↔ IsKind chat_type_group jid
unfolding match_chat_type text_eq codes
group-IsKind jid =
    (λ h. (λ e. (ends jid group_suffix).0 h, λ e. cc), λ (h, k). (ends jid group_suffix).1 (h refl))

individual-IsKind :
    (jid : Text)
    → (match_chat_type chat_type_individual jid ≡ true) ↔ IsKind chat_type_individual jid
unfolding match_chat_type text_eq codes
individual-IsKind jid =
    let (f, g) = and_iff _ _ (not_iff _ (empty_iff jid)) (
      and_iff _ _ (not_iff _ (ends jid group_suffix)) (
        and_iff _ _ (not_iff _ (ends jid (codes "@newsletter")))
          (not_iff _ (ends jid (codes "@broadcast"))))) in
    (λ h. (λ e. cc, λ e. f h), λ (h, k). g (k refl))

other-IsKind :
    (t jid : Text)
    → text_eq t chat_type_group ≡ false
    → text_eq t chat_type_individual ≡ false
    → (match_chat_type t jid ≡ true) ↔ IsKind t jid
unfolding match_chat_type
other-IsKind t jid n m = (λ h. (λ e. differ n e, λ e. differ m e), λ k. rw (n, m) (ground arith))
  where
    differ : {A : Type 0} {u : Text} → text_eq t u ≡ false → t ≡ u → A
    differ {A} {u} n' e = absurd (let h : true ≡ false = sym (text_eq_refl u) ∙ (rw e at n') in cc)

kind : (t jid : Text) → (match_chat_type t jid ≡ true) ↔ IsKind t jid
kind t jid = elim (Bool-cases (text_eq t chat_type_group)) [
  | inl e ↦
      (let e' : chat_type_group ≡ t = sym (text_eq→eq t chat_type_group e) in
        subst (λ u. (match_chat_type u jid ≡ true) ↔ IsKind u jid) e' (group-IsKind jid))
  | inr n ↦ elim (Bool-cases (text_eq t chat_type_individual)) [
    | inl e ↦
        (let e' : chat_type_individual ≡ t = sym (text_eq→eq t chat_type_individual e) in
          subst (λ u. (match_chat_type u jid ≡ true) ↔ IsKind u jid) e' (individual-IsKind jid))
    | inr m ↦ other-IsKind t jid n m
  ]
]

-- `MatchesFilter` says yes exactly where the webhook is enabled, does not ignore the account's own
-- event, names the kind of event, and its kind of chat and each of its four allowlists admit what
-- is known of the event; a list that is not empty never admits a value that is missing.
pub matches_filter_iff : (w : Webhook) (e : Event) → (matches_filter w e ≡ true) ↔ IsFor w e
unfolding matches_filter
matches_filter_iff w e =
    guard_iff w.enabled _ (λ h. h, λ h. h)
      (own_iff e.is_from_me w.ignore_from_me _ (
        guard_iff _ _ (listed w.events e.event_type) (
          guard_iff _ _ (kind w.chat_type e.chat_jid) (
            guard_iff _ _ (admitted w.chat_ids e.chat_jid) (
              guard_iff _ _ (admitted w.senders e.sender_jid) (
                guard_iff _ _ (admitted w.chat_names e.chat_name)
                  (admitted w.sender_names e.sender_name)))))))
