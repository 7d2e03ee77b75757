-- ===== src/Routing/Subscribing.antt =====
-- The subscriptions of an instance in pkg/whatsmeow/service/whatsmeow.go: which names they hold.
use webapp_wago.Base.{
  Bool, true, false, not, ◌||◌, List, [], ◌∷◌, ◌++◌, all, All, All-middle, all-All, All-append,
  any-Any, if◌then◌else◌, ◌≡◌, refl, sym, subst, ap, ap₂, ◌∙◌,
}
use webapp_wago.Base.Text.{Text, codes, text_eq, text_eq→eq, equal_fold, split}
use webapp_wago.EventTypes.{all_name, all_event_types, is_event_type}
use webapp_wago.Routing.Finding.{find-append}
use webapp_wago.Routing.{find, subscribe, subscriptions_of, contains}

abbrev pub IsName : Text → Type 0
IsName x = is_event_type x ≡ true

abbrev pub names : List Text
names = all_name ∷ all_event_types

-- What holds of each name of an event type holds of a text that is one.
pub name-All : (P : Text → Type 0) (x : Text) → IsName x → All P names → P x
unfolding is_event_type
name-All P x h k =
    let (b, y, a, e, t) = any-Any (λ name. text_eq name x) names h in
    subst P (text_eq→eq y x t) (All-middle P b y a (subst (All P) e k))

abbrev same : Bool → Bool → Bool
same a b = if a then b else not b

same_lem : (a b : Bool) → same a b ≡ true → b ≡ a
same_lem true b h = h
same_lem false true h = cc
same_lem false false h = refl

-- Names are of upper-case letters, so that the case does not matter between two of them.
equal_fold_names : (x c : Text) → IsName x → IsName c → equal_fold x c ≡ text_eq x c
unfolding text_eq codes equal_fold
equal_fold_names x c hx hc = same_lem (text_eq x c) (equal_fold x c) (
    name-All (λ d. same (text_eq x d) (equal_fold x d) ≡ true) c hc
      (all-All (λ d. same (text_eq x d) (equal_fold x d)) names
        (name-All (λ y. all (λ d. same (text_eq y d) (equal_fold y d)) names ≡ true) x hx
          (all-All (λ y. all (λ d. same (text_eq y d) (equal_fold y d)) names) names refl))))

absorb : (a b r : Bool) → (b ≡ true → a ≡ true) → (a || r) ≡ (a || (b || r))
absorb true b r h = refl
absorb false true r h = let e : false ≡ true = h refl in cc
absorb false false r h = refl

or_assoc : (a b r : Bool) → ((a || (b || false)) || r) ≡ (a || (b || r))
or_assoc true b r = refl
or_assoc false true r = refl
or_assoc false false r = refl

module _ (c : Text) (hc : IsName c) where
  contains_names : (xs : List Text) → All IsName xs → contains xs c ≡ find xs c
  unfolding contains find
  contains_names [] h = refl
  contains_names (x ∷ xs) (hx, h) =
      ap₂ (λ (a b : Bool). a || b) (equal_fold_names x c hx hc) (contains_names xs h)

  contains-subscribe :
      (acc args : List Text)
      → All IsName acc
      → contains (subscribe acc args) c ≡ (find acc c || find args c)
  unfolding subscribe find
  contains-subscribe acc [] h = contains_names acc h ∙ sym (or_false (find acc c))
    where
      or_false : (b : Bool) → (b || false) ≡ b
      or_false true = refl
      or_false false = refl
  contains-subscribe acc (arg ∷ args) h =
      of (is_event_type arg) (find acc arg) refl refl (contains-subscribe acc args h) (λ named.
        contains-subscribe (acc ++ arg ∷ []) args (All-append IsName acc (arg ∷ []) h (named, tt)))
    where
      of :
          (named old : Bool)
          → is_event_type arg ≡ named
          → find acc arg ≡ old
          → contains (subscribe acc args) c ≡ (find acc c || find args c)
          → (IsName arg
              → contains (subscribe (acc ++ arg ∷ []) args) c
                ≡ (find (acc ++ arg ∷ []) c || find args c))
          → contains
              (if not named || old then subscribe acc args else subscribe (acc ++ arg ∷ []) args)
              c
            ≡ (find acc c || (text_eq arg c || find args c))
      of false old e e' skipped added =
          skipped
          ∙ absorb (find acc c) (text_eq arg c) (find args c) (λ t.
            let k : is_event_type arg ≡ true = ap is_event_type (text_eq→eq arg c t) ∙ hc in cc)
      of true true e e' skipped added =
          skipped
          ∙ absorb (find acc c) (text_eq arg c) (find args c)
              (λ t. ap (λ x. find acc x) (sym (text_eq→eq arg c t)) ∙ e')
      of true false e e' skipped added =
          added e
          ∙ ap (λ b. b || find args c) (find-append c acc (arg ∷ []))
          ∙ or_assoc (find acc c) (text_eq arg c) (find args c)

  -- An event type counts as subscribed to just when it is one of the parts between the commas of
  -- the text that is stored, in the same letters: neither the filter, nor the removal of repeated
  -- parts, nor the comparison that ignores case changes that.
  pub contains-subscriptions_of :
      (events : Text) → contains (subscriptions_of events) c ≡ find (split b',' events) c
  unfolding subscriptions_of find
  contains-subscriptions_of events = contains-subscribe [] (split b',' events) tt
