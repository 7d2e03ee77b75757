-- ===== src/Validation/Recipients.antt =====
-- What a handler finds under "number" behind ValidateNumberField and
-- ValidateNumberFieldWithFormatJid of pkg/middleware/jid_validation_middleware.go.
use webapp_wago.Base.{
  ℕ, ◌+◌, ◌≡◌, ◌≢◌, refl, sym, ◌∙◌, ap, ap₂, subst, Bool, true, false, ◌||◌, [], ◌∷◌, Option, none,
  some, Result, ok, err, if◌then◌else◌, ok-injective, or-false, >>=-eq-ok,
}
use webapp_wago.Base.Text.{Text, text_eq, text_eq_refl}
use webapp_wago.Json.{Json, text, array, Items, nil, cons, Fields, get, put, get-put}
use webapp_wago.Jid.{Error}
use webapp_wago.Validation.{}
use webapp_wago.Validation.Named.{store, rejecting}
use webapp_wago.Validation.Numbers.{
  Rule, rejecting_item, check_item, check_items, number_key, check_number_value,
}

rejecting_item-ok :
    (name : Text) (i : ℕ) (r : Result Error (Text × Bool)) {q : Text × Bool}
    → rejecting_item name i r ≡ ok q
    → r ≡ ok q
rejecting_item-ok name i (ok q) h = ap ok (ok-injective h)
rejecting_item-ok name i (err e) h = cc

rejecting-ok :
    (name : Text) (r : Result Error (Text × Bool)) {q : Text × Bool}
    → rejecting name r ≡ ok q
    → r ≡ ok q
rejecting-ok name (ok q) h = ap ok (ok-injective h)
rejecting-ok name (err e) h = cc

-- What holds of the texts of a value.
module _ (Good : Text → Type 0) where
  abbrev pub AreGood : Items → Type 0
  AreGood nil = Unit {0}
  AreGood (cons (text s) vs) = Good s × AreGood vs
  AreGood (cons _ vs) = ⊥

  abbrev pub IsGoodItem : Json → Type 0
  IsGoodItem (text s) = Good s
  IsGoodItem _ = ⊥

  AreGood-cons : (v : Json) (vs : Items) → IsGoodItem v → AreGood vs → AreGood (cons v vs)
  AreGood-cons (text s) vs g h = (g, h)
  AreGood-cons _ vs g h = absurd g

  -- The value under "number": absent, one good text, or an array of good texts that is not empty.
  abbrev pub IsGoodNumber : Option Json → Type 0
  IsGoodNumber none = Unit {0}
  IsGoodNumber (some (text s)) = Good s
  IsGoodNumber (some (array vs)) = (vs ≢ nil) × AreGood vs
  IsGoodNumber (some _) = ⊥

  pub record Leaves (m : Fields) (r : Fields × Bool) : Type 0 where
    -- The map that the handlers read, whether it was modified or not.
    pub good : IsGoodNumber (get number_key (if r.1 then r.0 else m))
    pub others : (k : Text) → text_eq number_key k ≡ false → get k (r.0) ≡ get k m

-- A rule, and what it makes true of each text that it lets through.
module _ (rule : Rule) (Good : Text → Type 0)
    (sound : (s j : Text) (b : Bool) → rule s ≡ ok (j, b) → Good j × (b ≡ false → j ≡ s)) where
  item-good :
      (s j : Text) (b : Bool)
      → Good j
      → (b ≡ false → j ≡ s)
      → let r : Json × Bool = if b then (text j, true) else (text s, false) in
        IsGoodItem Good (r.0) × (r.1 ≡ false → r.0 ≡ text s)
  item-good s j true g same = (g, λ f. cc)
  item-good s j false g same = (subst Good (same refl) g, λ _. refl)

  check_item-good :
      (name : Text) (i : ℕ) (v : Json) (r : Json × Bool)
      → check_item true name i rule v ≡ ok r
      → IsGoodItem Good (r.0) × (r.1 ≡ false → r.0 ≡ v)
  unfolding check_item
  check_item-good name i (text (c ∷ s)) r h =
      let (q, e, h') = >>=-eq-ok (rejecting_item name i (rule (c ∷ s))) _ h in
      let (good, same) = sound (c ∷ s) (q.0) (q.1) (rejecting_item-ok name i _ e) in
      subst (λ r. IsGoodItem Good (r.0) × (r.1 ≡ false → r.0 ≡ text (c ∷ s))) (ok-injective h')
        (item-good (c ∷ s) (q.0) (q.1) good same)
  check_item-good name i v r h = cc

  check_items-good :
      (name : Text) (i : ℕ) (vs : Items) (b : Bool) (r : Items × Bool)
      → check_items true name i rule vs b ≡ ok r
      → AreGood Good (r.0) × (r.1 ≡ false → (b ≡ false) × (r.0 ≡ vs))
  unfolding check_items
  check_items-good name i nil b r h =
      subst (λ r. AreGood Good (r.0) × (r.1 ≡ false → (b ≡ false) × (r.0 ≡ nil))) (ok-injective h)
        (tt, λ f. (f, refl))
  check_items-good name i (cons v vs) b r h =
      let (q, e, h') = >>=-eq-ok (check_item true name i rule v) _ h in
      let (rest, e', h'') = >>=-eq-ok (check_items true name (i + 1) rule vs (b || q.1)) _ h' in
      let (good, same) = check_item-good name i v q e in
      let (goods, sames) = check_items-good name (i + 1) vs (b || q.1) rest e' in
      subst (λ r. AreGood Good (r.0) × (r.1 ≡ false → (b ≡ false) × (r.0 ≡ cons v vs)))
        (ok-injective h'')
        (
          AreGood-cons Good (q.0) (rest.0) good goods,
          λ f.
              let (flags, tails) = sames f in
              let (old, new) = or-false b (q.1) flags in (old, ap₂ cons (same new) tails),
        )

  -- An array stays as long as it was.
  check_items-nil :
      (name : Text) (i : ℕ) (v : Json) (vs : Items) (b : Bool) (r : Items × Bool)
      → check_items true name i rule (cons v vs) b ≡ ok r
      → r.0 ≢ nil
  unfolding check_items
  check_items-nil name i v vs b r h empty =
      let (q, e, h') = >>=-eq-ok (check_item true name i rule v) _ h in
      let (rest, e', h'') = >>=-eq-ok (check_items true name (i + 1) rule vs (b || q.1)) _ h' in
      cc (ap (λ (r : Items × Bool). r.0) (ok-injective h''))

  put-Leaves :
      (m : Fields) (v : Json) (b : Bool)
      → IsGoodNumber Good (some v)
      → (b ≡ false → get number_key m ≡ some v)
      → Leaves Good m (put number_key v m, b)
  put-Leaves m v true g same = record {
    good = rw (get-put number_key number_key v m, text_eq_refl number_key) g;
    others = λ k ne. get-put number_key k v m ∙ rw ne refl;
  }
  put-Leaves m v false g same = record {
    good = rw (same refl) g;
    others = λ k ne. get-put number_key k v m ∙ rw ne refl;
  }

  store-Leaves :
      (m : Fields) (s j : Text) (b : Bool)
      → get number_key m ≡ some (text s)
      → Good j
      → (b ≡ false → j ≡ s)
      → Leaves Good m (store number_key m (j, b))
  store-Leaves m s j true e g same = put-Leaves m (text j) true g (λ f. cc)
  store-Leaves m s j false e g same = record {
    good = rw e (subst Good (same refl) g);
    others = λ k ne. refl;
  }

  pub check_number_value-good :
      (m : Fields) (v : Option Json) (r : Fields × Bool)
      → get number_key m ≡ v
      → check_number_value rule m v ≡ ok r
      → Leaves Good m r
  unfolding check_number_value
  check_number_value-good m none r g h =
      subst (Leaves Good m) (ok-injective h) (record { good = rw g tt; others = λ k ne. refl })
  check_number_value-good m (some (array nil)) r g h = cc
  check_number_value-good m (some (array (cons v vs))) r g h =
      let (q, e, h') = >>=-eq-ok (check_items true number_key 0 rule (cons v vs) false) _ h in
      let (good, same) = check_items-good number_key 0 (cons v vs) false q e in
      subst (Leaves Good m) (ok-injective h') (
        put-Leaves m (array (q.0)) (q.1) (check_items-nil number_key 0 v vs false q e, good)
          (λ f. g ∙ ap (λ w. some (array w)) (sym ((same f).1))))
  check_number_value-good m (some (text [])) r g h = cc
  check_number_value-good m (some (text (c ∷ s))) r g h =
      let (q, e, h') = >>=-eq-ok (rejecting number_key (rule (c ∷ s))) _ h in
      let (good, same) = sound (c ∷ s) (q.0) (q.1) (rejecting-ok number_key _ e) in
      subst (Leaves Good m) (ok-injective h') (store-Leaves m (c ∷ s) (q.0) (q.1) g good same)
  check_number_value-good m (some _) r g h = cc
