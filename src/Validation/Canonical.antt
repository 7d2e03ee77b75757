-- ===== src/Validation/Canonical.antt =====
-- What a handler finds behind ValidateJIDFields of pkg/middleware/jid_validation_middleware.go.
use webapp_wago.Base.{
  ◌≡◌, refl, sym, ◌∙◌, ap, subst, Bool, true, false, not, [], ◌∷◌, Option, none, some, ok, err,
  Result-cases, Bool-cases, ◌⊎◌, inl, inr,
}
use webapp_wago.Base.Text.{Text, text_eq, text_eq_refl, text_eq→eq}
use webapp_wago.Json.{Json, null, boolean, number, text, array, object, Fields, get, put, get-put}
use webapp_wago.Jid.{Error, create_jid}
use webapp_wago.Jid.Canonical.{create_jid_idempotent, create_jid-nil}
use webapp_wago.Validation.{normalize}
use webapp_wago.Validation.Named.{store, check_value, check_field}

-- A field that is absent, or holds an address that CreateJID leaves as it is.
abbrev pub IsCanonical : Option Json → Type 0
IsCanonical none = Unit {0}
IsCanonical (some (text s)) = create_jid s ≡ ok s
IsCanonical (some _) = ⊥

-- A field that is absent, or holds a text that CreateJID accepts.
abbrev pub IsAcceptable : Option Json → Type 0
IsAcceptable none = Unit {0}
IsAcceptable (some (text s)) = (j : Text) × (create_jid s ≡ ok j)
IsAcceptable (some _) = ⊥

pub IsCanonical-IsAcceptable : (v : Option Json) → IsCanonical v → IsAcceptable v
IsCanonical-IsAcceptable none h = tt
IsCanonical-IsAcceptable (some (text s)) h = (s, h)
IsCanonical-IsAcceptable (some _) h = absurd h

normalize_ok : (s j : Text) → create_jid s ≡ ok j → normalize s ≡ ok (j, not (text_eq j s))
unfolding normalize
normalize_ok s j h = rw h refl

normalize_err : (s : Text) (e : Error) → create_jid s ≡ err e → normalize s ≡ err e
unfolding normalize
normalize_err s e h = rw h refl

-- The map behind a field that is accepted: the same where the address is, and else with it.
abbrev pub Stored : Text → Fields → Text → Text → Fields × Bool → Type 0
Stored name m s j r = ((j ≡ s) × (r ≡ (m, false))) ⊎ (r ≡ (put name (text j) m, true))

store-Stored :
    (name : Text) (m : Fields) (s j : Text)
    → Stored name m s j (store name m (j, not (text_eq j s)))
store-Stored name m s j = elim (Bool-cases (text_eq j s)) [
  | inl e ↦ inl (text_eq→eq j s e, rw e refl)
  | inr e ↦ inr (rw e refl)
]

pub check_field-ok :
    (name : Text) (m : Fields) (s j : Text)
    → get name m ≡ some (text s)
    → create_jid s ≡ ok j
    → check_field name m ≡ ok (store name m (j, not (text_eq j s)))
unfolding check_field
check_field-ok name m [] j g h = cc create_jid-nil
check_field-ok name m (c ∷ s) j g h = rw (g, normalize_ok (c ∷ s) j h) refl

pub check_field-absent :
    (name : Text) (m : Fields) → get name m ≡ none → check_field name m ≡ ok (m, false)
unfolding check_field
check_field-absent name m g = rw g refl

check_value-IsAcceptable :
    (name : Text) (m : Fields) (v : Option Json) {r : Fields × Bool}
    → check_value name m v ≡ ok r
    → IsAcceptable v
unfolding check_value
check_value-IsAcceptable name m none e = tt
check_value-IsAcceptable name m (some (text [])) e = cc
check_value-IsAcceptable name m (some (text (c ∷ s))) e = of (Result-cases (create_jid (c ∷ s)))
  where
    of :
        ((j : Text) × (create_jid (c ∷ s) ≡ ok j)) ⊎ ((f : Error) × (create_jid (c ∷ s) ≡ err f))
        → (j : Text) × (create_jid (c ∷ s) ≡ ok j)
    of (inl found) = found
    of (inr (f, h)) = cc (normalize_err (c ∷ s) f h)
check_value-IsAcceptable name m (some null) e = cc
check_value-IsAcceptable name m (some (boolean b)) e = cc
check_value-IsAcceptable name m (some (number n)) e = cc
check_value-IsAcceptable name m (some (array vs)) e = cc
check_value-IsAcceptable name m (some (object fs)) e = cc

-- A field passes exactly where it is acceptable.
pub check_field-IsAcceptable :
    (name : Text) (m : Fields) {r : Fields × Bool}
    → check_field name m ≡ ok r
    → IsAcceptable (get name m)
unfolding check_field
check_field-IsAcceptable name m e = check_value-IsAcceptable name m (get name m) e

-- What one accepted field does to the map.
pub record Accepts (name : Text) (m : Fields) (r : Fields × Bool) : Type 0 where
  pub canonical : IsCanonical (get name (r.0))
  pub others : (k : Text) → text_eq name k ≡ false → get k (r.0) ≡ get k m
  pub untouched : r.1 ≡ false → r.0 ≡ m

get-put_self : (k : Text) (v : Json) (m : Fields) → get k (put k v m) ≡ some v
get-put_self k v m = get-put k k v m ∙ rw (text_eq_refl k) refl

Stored-Accepts :
    (name : Text) (m : Fields) (s j : Text) (r : Fields × Bool)
    → get name m ≡ some (text s)
    → create_jid s ≡ ok j
    → Stored name m s j r
    → Accepts name m r
Stored-Accepts name m s j r g h (inl (same, e)) =
    subst (Accepts name m) (sym e)
      (record { canonical = rw g (h ∙ ap ok same); others = λ k _. refl; untouched = λ _. refl })
Stored-Accepts name m s j r g h (inr e) = subst (Accepts name m) (sym e) (record {
  canonical = rw (get-put_self name (text j) m) (create_jid_idempotent s j h);
  others = λ k ne. get-put name k (text j) m ∙ rw ne refl;
  untouched = λ f. cc;
})

pub check_field-Accepts :
    (name : Text) (m : Fields)
    → IsAcceptable (get name m)
    → (r : Fields × Bool) × (check_field name m ≡ ok r) × Accepts name m r
check_field-Accepts name m h = of (get name m) refl h
  where
    of :
        (v : Option Json)
        → get name m ≡ v
        → IsAcceptable v
        → (r : Fields × Bool) × (check_field name m ≡ ok r) × Accepts name m r
    of none g h = (
      (m, false),
      check_field-absent name m g,
      record { canonical = rw g tt; others = λ k _. refl; untouched = λ _. refl },
    )
    of (some (text s)) g (j, h) = (
      store name m (j, not (text_eq j s)),
      check_field-ok name m s j g h,
      Stored-Accepts name m s j _ g h (store-Stored name m s j),
    )
    of (some _) g h = absurd h
