-- ===== src/Routing/Asking.antt =====
-- The switch of CallWebhook in pkg/whatsmeow/service/whatsmeow.go against a description of what an
-- instance asks for.
use webapp_wago.Base.{
  Bool, true, false, ◌&&◌, ◌||◌, List, All, all-All, Option, none, some, if◌then◌else◌, ◌≡◌, refl,
  sym, ap, ap₂, ◌∙◌,
}
use webapp_wago.Base.Text.{Text, codes, text_eq, text_eq→eq, has_suffix, split}
use webapp_wago.Base.Table.{assoc, assoc-All}
use webapp_wago.Json.{Fields}
use webapp_wago.EventTypes.{is_event_type}
use webapp_wago.Routing.{
  find, subscriptions_of, contains, categories, message_chat, receipt_chat, by_chat, by_category,
  is_wanted,
}
use webapp_wago.Routing.Subscribing.{IsName, contains-subscriptions_of}

-- The chat by which an event of three kinds may count for a group or a newsletter.
abbrev pub place : Text → Fields → Option Text
place event_type m =
    if text_eq event_type (codes "Message") || text_eq event_type (codes "SendMessage")
    then message_chat m
    else if text_eq event_type (codes "Receipt")
    then receipt_chat m
    else none

abbrev pub asked_by_kind : List Text → Option Text → Bool
asked_by_kind args none = false
asked_by_kind args (some c) = find args c

abbrev pub asked_by_place : List Text → Option Text → Bool
asked_by_place args none = false
asked_by_place args (some chat) =
    (has_suffix chat (codes "@g.us") && find args (codes "GROUP"))
    || (has_suffix chat (codes "@newsletter") && find args (codes "NEWSLETTER"))

-- What the parts of the stored text ask for: all events, the kind of the event, the place where
-- it happened, or, for a click on a button, its kind or messages.
abbrev pub asked : List Text → Text → Fields → Bool
asked args event_type m =
    find args (codes "ALL")
    || (asked_by_kind args (assoc event_type categories)
        || (asked_by_place args (place event_type m)
            || (text_eq event_type (codes "ButtonClick")
                && (find args (codes "BUTTON_CLICK") || find args (codes "MESSAGE")))))

categories_named : All (λ p. IsName p.1) categories
unfolding is_event_type
categories_named = all-All (λ p. is_event_type p.1) categories refl

pub all-IsName : IsName (codes "ALL")
unfolding is_event_type text_eq codes
all-IsName = refl

message-IsName : IsName (codes "MESSAGE")
unfolding is_event_type text_eq codes
message-IsName = refl

send_message-IsName : IsName (codes "SEND_MESSAGE")
unfolding is_event_type text_eq codes
send_message-IsName = refl

receipt-IsName : IsName (codes "READ_RECEIPT")
unfolding is_event_type text_eq codes
receipt-IsName = refl

group-IsName : IsName (codes "GROUP")
unfolding is_event_type text_eq codes
group-IsName = refl

newsletter-IsName : IsName (codes "NEWSLETTER")
unfolding is_event_type text_eq codes
newsletter-IsName = refl

click-IsName : IsName (codes "BUTTON_CLICK")
unfolding is_event_type text_eq codes
click-IsName = refl

-- The kinds of event that the `switch` treats apart.
message_kind :
    (m : Fields)
    → (assoc (codes "Message") categories ≡ some (codes "MESSAGE"))
      × (text_eq (codes "Message") (codes "ButtonClick") ≡ false)
      × (place (codes "Message") m ≡ message_chat m)
unfolding assoc text_eq codes
message_kind m = (refl, refl, refl)

send_message_kind :
    (m : Fields)
    → (assoc (codes "SendMessage") categories ≡ some (codes "SEND_MESSAGE"))
      × (text_eq (codes "SendMessage") (codes "ButtonClick") ≡ false)
      × (place (codes "SendMessage") m ≡ message_chat m)
unfolding assoc text_eq codes
send_message_kind m = (refl, refl, refl)

receipt_kind :
    (m : Fields)
    → (assoc (codes "Receipt") categories ≡ some (codes "READ_RECEIPT"))
      × (text_eq (codes "Receipt") (codes "ButtonClick") ≡ false)
      × (place (codes "Receipt") m ≡ receipt_chat m)
unfolding assoc text_eq codes
receipt_kind m = (refl, refl, refl)

click_kind :
    (m : Fields)
    → (assoc (codes "ButtonClick") categories ≡ none)
      × (text_eq (codes "ButtonClick") (codes "ButtonClick") ≡ true)
      × (place (codes "ButtonClick") m ≡ none)
unfolding assoc text_eq codes
click_kind m = (refl, refl, refl)

four_ways :
    (r b1 b2 b3 b4 x1 x2 x3 x4 x5 : Bool)
    → (b1 ≡ true → x1 ≡ r)
    → (b2 ≡ true → x2 ≡ r)
    → (b3 ≡ true → x3 ≡ r)
    → (b4 ≡ true → x4 ≡ r)
    → (b1 ≡ false → b2 ≡ false → b3 ≡ false → b4 ≡ false → x5 ≡ r)
    → (if b1 then x1 else if b2 then x2 else if b3 then x3 else if b4 then x4 else x5) ≡ r
four_ways r true b2 b3 b4 x1 x2 x3 x4 x5 h1 h2 h3 h4 h5 = h1 refl
four_ways r false true b3 b4 x1 x2 x3 x4 x5 h1 h2 h3 h4 h5 = h2 refl
four_ways r false false true b4 x1 x2 x3 x4 x5 h1 h2 h3 h4 h5 = h3 refl
four_ways r false false false true x1 x2 x3 x4 x5 h1 h2 h3 h4 h5 = h4 refl
four_ways r false false false false x1 x2 x3 x4 x5 h1 h2 h3 h4 h5 = h5 refl refl refl refl

or_false : (b : Bool) → (b || false) ≡ b
or_false true = refl
or_false false = refl

module _ (events : Text) where
  abbrev subs : List Text
  subs = subscriptions_of events

  abbrev args : List Text
  args = split b',' events

  pub is_subscribed : (c : Text) → IsName c → contains subs c ≡ find args c
  is_subscribed c h = contains-subscriptions_of c h events

  by_category_lem :
      (event_type : Text) (o : Option Text)
      → assoc event_type categories ≡ o
      → by_category subs o ≡ asked_by_kind args o
  by_category_lem event_type none e = refl
  by_category_lem event_type (some c) e =
      is_subscribed c (assoc-All (λ p. IsName p.1) event_type c categories categories_named e)

  by_chat_lem : (o : Option Text) → by_chat subs o ≡ asked_by_place args o
  by_chat_lem none = refl
  by_chat_lem (some chat) =
      ap₂
        (λ (a b : Bool).
          (has_suffix chat (codes "@g.us") && a) || (has_suffix chat (codes "@newsletter") && b))
        (is_subscribed (codes "GROUP") group-IsName)
        (is_subscribed (codes "NEWSLETTER") newsletter-IsName)

  -- A kind with a fallback to the place.
  placed :
      (m : Fields) (c : Text) (o : Option Text) (chat : Option Text) (click : Bool)
      → IsName c
      → o ≡ some c
      → click ≡ false
      → (contains subs c || by_chat subs chat) ≡ (
          asked_by_kind args o
          || (asked_by_place args chat
              || (click && (find args (codes "BUTTON_CLICK") || find args (codes "MESSAGE")))))
  placed m c o chat click h eo ec =
      rw (eo, ec)
        (ap₂ (λ (a b : Bool). a || b) (is_subscribed c h)
          (by_chat_lem chat ∙ sym (or_false (asked_by_place args chat))))

  module _ (event_type : Text) (m : Fields) where
    abbrev clicked : Bool
    clicked =
        text_eq event_type (codes "ButtonClick")
        && (find args (codes "BUTTON_CLICK") || find args (codes "MESSAGE"))

    abbrev rest : Bool
    rest =
        asked_by_kind args (assoc event_type categories)
        || (asked_by_place args (place event_type m) || clicked)

    -- The event is of a kind with a fallback.
    at_kind :
        (kind c : Text) (chat : Option Text)
        → IsName c
        → text_eq event_type kind ≡ true
        → (assoc kind categories ≡ some c)
          × (text_eq kind (codes "ButtonClick") ≡ false)
          × (place kind m ≡ chat)
        → (contains subs c || by_chat subs chat) ≡ rest
    at_kind kind c chat h e (eo, ec, ep) =
        let k : event_type ≡ kind = text_eq→eq event_type kind e in
        ap (λ x. contains subs c || by_chat subs x) (sym (ap (λ x. place x m) k ∙ ep))
        ∙ placed m c (assoc event_type categories) (place event_type m)
            (text_eq event_type (codes "ButtonClick")) h (ap (λ x. assoc x categories) k ∙ eo)
            (ap (λ x. text_eq x (codes "ButtonClick")) k ∙ ec)

    at_click :
        text_eq event_type (codes "ButtonClick") ≡ true
        → (contains subs (codes "BUTTON_CLICK") || contains subs (codes "MESSAGE")) ≡ rest
    at_click e =
        let k : event_type ≡ codes "ButtonClick" = text_eq→eq event_type (codes "ButtonClick") e in
        let (eo, ec, ep) = click_kind m in
        let o : assoc event_type categories ≡ none = ap (λ x. assoc x categories) k ∙ eo in
        let p : place event_type m ≡ none = ap (λ x. place x m) k ∙ ep in
        rw (o, p, e)
          (ap₂ (λ (a b : Bool). a || b) (is_subscribed (codes "BUTTON_CLICK") click-IsName)
            (is_subscribed (codes "MESSAGE") message-IsName))

    at_other :
        text_eq event_type (codes "Message") ≡ false
        → text_eq event_type (codes "SendMessage") ≡ false
        → text_eq event_type (codes "Receipt") ≡ false
        → text_eq event_type (codes "ButtonClick") ≡ false
        → by_category subs (assoc event_type categories) ≡ rest
    at_other e1 e2 e3 e4 =
        rw (e1, e2, e3, e4)
          (by_category_lem event_type (assoc event_type categories) refl
            ∙ sym (or_false (asked_by_kind args (assoc event_type categories))))

    pub is_wanted_lem : is_wanted subs event_type m ≡ rest
    unfolding is_wanted
    is_wanted_lem =
        four_ways rest (text_eq event_type (codes "Message"))
          (text_eq event_type (codes "SendMessage")) (text_eq event_type (codes "Receipt"))
          (text_eq event_type (codes "ButtonClick")) _ _ _ _ _
          (λ e.
            at_kind (codes "Message") (codes "MESSAGE") (message_chat m) message-IsName e
              (message_kind m))
          (λ e.
            at_kind (codes "SendMessage") (codes "SEND_MESSAGE") (message_chat m)
              send_message-IsName e (send_message_kind m))
          (λ e.
            at_kind (codes "Receipt") (codes "READ_RECEIPT") (receipt_chat m) receipt-IsName e
              (receipt_kind m))
          at_click at_other
