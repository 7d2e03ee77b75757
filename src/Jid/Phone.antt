-- ===== src/Jid/Phone.antt =====
-- The national rules for telephone numbers of pkg/utils/utils.go.
use webapp_wago.Base.{
  ℕ, zero, suc, ◌+◌, ◌-◌, ◌*◌, ◌≤◌, ◌≡◌, ◌≢◌, refl, ◌∙◌, ap, Bool, true, false, not, ◌&&◌, ◌||◌, [],
  ◌∷◌, ◌++◌, Option, none, some, arith, leb, ltb, ◌==◌, ==_iff, and-true, or-false, if_cases,
  if◌then◌else◌, take, drop, length, All, All-append, length-append, length-take, length-drop, inl,
  inr, ◌⊎◌,
}
use webapp_wago.Base.Int.{ℤ, pos, ltb_int}
use webapp_wago.Base.Text.{Text, codes, len, text_eq, has_prefix}
use webapp_wago.Base.Number.{is_digit, in_range, atoi}
use webapp_wago.Jid.{format_mx_or_ar_number, format_br_number, formatted, without_nine, in_area}

abbrev pub AreDigits : Text → Type 0
AreDigits s = All (λ c. is_digit c ≡ true) s

-- A digit is one byte.
pub len-AreDigits : (s : Text) → AreDigits s → len s ≡ length s
unfolding len
len-AreDigits [] h = refl
len-AreDigits (c ∷ s) (d, h) = ground (arith, len-AreDigits s h)

take-AreDigits : (n : ℕ) (s : Text) → AreDigits s → AreDigits (take n s)
take-AreDigits zero s h = tt
take-AreDigits (suc n) [] h = tt
take-AreDigits (suc n) (c ∷ s) (d, h) = (d, take-AreDigits n s h)

drop-AreDigits : (n : ℕ) (s : Text) → AreDigits s → AreDigits (drop n s)
drop-AreDigits zero s h = h
drop-AreDigits (suc n) [] h = tt
drop-AreDigits (suc n) (c ∷ s) (d, h) = drop-AreDigits n s h

-- What a rule makes of a text of digits: the text itself, or one with some digits cut out, which
-- has 11 or 12.
abbrev pub Shortens : Text → Text → Type 0
Shortens s t = (t ≡ s) ⊎ ((len s ≡ 13) × AreDigits t × (11 ≤ length t) × (length t ≤ 12))

cut : (a b : ℕ) (s : Text) → AreDigits s → AreDigits (take a s ++ drop b s)
cut a b s h =
    All-append (λ c. is_digit c ≡ true) (take a s) (drop b s) (take-AreDigits a s h)
      (drop-AreDigits b s h)

length-cut :
    (a b : ℕ) (s : Text)
    → AreDigits s
    → len s ≡ 13
    → a ≤ 13
    → length (take a s ++ drop b s) ≡ a + (13 - b)
length-cut a b s h e p = omega (
  arith,
  len-AreDigits s h,
  length-append (take a s) (drop b s),
  length-take a s,
  length-drop b s,
)

cut-Shortens :
    (a b : ℕ) (s : Text)
    → AreDigits s
    → len s ≡ 13
    → a ≤ 13
    → 11 ≤ a + (13 - b)
    → a + (13 - b) ≤ 12
    → Shortens s (take a s ++ drop b s)
cut-Shortens a b s h e p q r =
    inr
      (e, cut a b s h, omega (arith, length-cut a b s h e p), omega (arith, length-cut a b s h e p))

thirteen : (b : Bool) (n : ℕ) → (b && n == 13) ≡ true → n ≡ 13
thirteen b n h = (==_iff n 13).0 (and-true b (n == 13) h).1

format_mx_or_ar-Shortens : (s : Text) → AreDigits s → Shortens s (format_mx_or_ar_number s)
unfolding format_mx_or_ar_number
format_mx_or_ar-Shortens s h =
    if_cases (Shortens s) (ltb (len s) 2) (λ _. inl refl)
      (λ _.
        if_cases (Shortens s) (text_eq (take 2 s) (codes "52") && len s == 13)
          (λ t.
            cut-Shortens 2 4 s h (thirteen _ (len s) t) (omega arith) (omega arith) (omega arith))
          (λ _.
            if_cases (Shortens s) (text_eq (take 2 s) (codes "54") && len s == 13)
              (λ t.
                cut-Shortens 2 3 s h (thirteen _ (len s) t) (omega arith) (omega arith)
                  (omega arith))
              (λ _. inl refl)))

without_nine-Shortens :
    (s : Text) (ddd : ℤ) (first : Option ℤ)
    → AreDigits s
    → len s ≡ 13
    → Shortens s (without_nine s ddd first)
without_nine-Shortens s ddd none h e = inl refl
without_nine-Shortens s ddd (some first) h e =
    if_cases (Shortens s) (not (ltb_int first (pos 7)) && not (ltb_int ddd (pos 31)))
      (λ _. cut-Shortens 4 5 s h e (omega arith) (omega arith) (omega arith)) (λ _. inl refl)

in_area-Shortens :
    (s : Text) (ddd : Option ℤ) → AreDigits s → len s ≡ 13 → Shortens s (in_area s ddd)
in_area-Shortens s none h e = inl refl
in_area-Shortens s (some ddd) h e =
    if_cases (Shortens s) (ltb_int ddd (pos 11) || ltb_int (pos 99) ddd) (λ _. inl refl)
      (λ _.
        if_cases (Shortens s) (ltb (len s) 6) (λ _. inl refl)
          (λ _. without_nine-Shortens s ddd (atoi (take 1 (drop 4 s))) h e))

format_br-Shortens : (s : Text) → AreDigits s → Shortens s (format_br_number s)
unfolding format_br_number
format_br-Shortens s h =
    if_cases (Shortens s) (not (len s == 13) || not (has_prefix s (codes "55"))) (λ _. inl refl)
      (λ t.
        in_area-Shortens s (atoi (take 2 (drop 2 s))) h
          (let (long, _) = or-false (not (len s == 13)) _ t in ground arith))

-- A text that is not 13 bytes long is left alone by both rules.
format_mx_or_ar_fixed : (s : Text) → len s ≢ 13 → format_mx_or_ar_number s ≡ s
unfolding format_mx_or_ar_number
format_mx_or_ar_fixed s h = ground arith

format_br_fixed : (s : Text) → len s ≢ 13 → format_br_number s ≡ s
unfolding format_br_number
format_br_fixed s h = ground arith

formatted_fixed : (s : Text) → len s ≢ 13 → formatted s ≡ s
unfolding formatted
formatted_fixed s h = ap format_br_number (format_mx_or_ar_fixed s h) ∙ format_br_fixed s h

pub formatted-Shortens : (s : Text) → AreDigits s → Shortens s (formatted s)
unfolding formatted
formatted-Shortens s h = after (format_mx_or_ar-Shortens s h)
  where
    after :
        Shortens s (format_mx_or_ar_number s)
        → Shortens s (format_br_number (format_mx_or_ar_number s))
    after (inl e) = rw e (format_br-Shortens s h)
    after (inr (long, ds, low, high)) =
        rw (format_br_fixed (format_mx_or_ar_number s) (omega (arith, len-AreDigits _ ds)))
          (inr (long, ds, low, high))

-- The national rules for Mexico, Argentina and Brazil turn digits into digits, and applying them
-- twice is applying them once.
pub formatted_idempotent :
    (s : Text) → AreDigits s → AreDigits (formatted s) × (formatted (formatted s) ≡ formatted s)
formatted_idempotent s h = of (formatted-Shortens s h)
  where
    of :
        Shortens s (formatted s) → AreDigits (formatted s) × (formatted (formatted s) ≡ formatted s)
    of (inl e) = (rw e h, ap formatted e)
    of (inr (long, ds, low, high)) =
        (ds, formatted_fixed (formatted s) (omega (arith, len-AreDigits _ ds)))

pub digit_not_sign :
    (a : ℕ) → is_digit a ≡ true → ((a == b'+') ≡ false) × ((a == b'-') ≡ false) × (a - b'0' ≤ 9)
digit_not_sign a p = ground arith

in_range_small : (n m : ℕ) → n ≡ m → m ≤ 99 → in_range (some n) ≡ some (pos m)
in_range_small n m e h = ground arith

atoi_two :
    (a b : ℕ)
    → is_digit a ≡ true
    → is_digit b ≡ true
    → atoi (a ∷ b ∷ []) ≡ some (pos ((a - b'0') * 10 + (b - b'0')))
unfolding atoi
atoi_two a b p q =
    let (plus, minus, low) = digit_not_sign a p in
    let (_, _, low') = digit_not_sign b q in
    rw (plus, minus, p, q) (in_range_small _ _ (omega arith) (omega arith))

atoi_one : (a : ℕ) → is_digit a ≡ true → atoi (a ∷ []) ≡ some (pos (a - b'0'))
unfolding atoi
atoi_one a p =
    let (plus, minus, low) = digit_not_sign a p in
    rw (plus, minus, p) (in_range_small _ _ (omega arith) (omega arith))

abbrev pub area : ℕ → ℕ → ℕ
area a b = (a - b'0') * 10 + (b - b'0')

-- The rule for Brazil on thirteen digits that begin with 55: the fifth digit goes exactly where it
-- is at least 7 and the two digits before it make at least 31.
pub format_br_number_lem :
    (a b c : ℕ) (rest : Text)
    → AreDigits (a ∷ b ∷ c ∷ rest)
    → length rest ≡ 8
    → format_br_number (b'5' ∷ b'5' ∷ a ∷ b ∷ c ∷ rest) ≡ (
        if leb b'7' c && leb 31 (area a b)
        then b'5' ∷ b'5' ∷ a ∷ b ∷ rest
        else b'5' ∷ b'5' ∷ a ∷ b ∷ c ∷ rest)
unfolding format_br_number
format_br_number_lem a b c rest (da, (db, (dc, dr))) n =
    let (_, _, low) = digit_not_sign a da in
    let (_, _, low') = digit_not_sign b db in
    rw (long, atoi_two a b da db, atoi_one c dc) (ground arith)
  where
    long : (len (b'5' ∷ b'5' ∷ a ∷ b ∷ c ∷ rest) == 13) ≡ true
    long = (==_iff _ 13).1 (
        omega (
          arith,
          len-AreDigits (b'5' ∷ b'5' ∷ a ∷ b ∷ c ∷ rest) (refl, (refl, (da, (db, (dc, dr))))),
        ))
