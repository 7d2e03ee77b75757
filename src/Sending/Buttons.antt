-- ===== src/Sending/Buttons.antt =====
-- SendButton of pkg/sendMessage/service/send_service.go: which kinds of button go together.
use webapp_wago.Base.{
  ℕ, suc, ◌+◌, Bool, true, false, not, ◌&&◌, ◌||◌, List, [], ◌∷◌, all, select, length, Result, ok,
  err, ◌==◌, leb, if◌then◌else◌, ◌≡◌, ◌↔◌, refl, ◌∙◌, arith,
}
use webapp_wago.Base.Text.{Text, codes, text_eq}

pub data ButtonError : Type 0 where
  too_many_replies : ButtonError
  reply_mixed : ButtonError
  pix_combined : ButtonError

-- What the loop over the buttons finds out.
pub record Scan : Type 0 where
  pub has_reply : Bool
  pub has_pix : Bool
  pub has_other_types : Bool
  pub reply_count : ℕ

abbrev pub is_reply : Text → Bool
is_reply kind = text_eq kind (codes "reply")

abbrev pub is_pix : Text → Bool
is_pix kind = not (is_reply kind) && text_eq kind (codes "pix")

abbrev pub is_other : Text → Bool
is_other kind = not (is_reply kind) && not (text_eq kind (codes "pix"))

abbrev pub noted : Text → Scan → Scan
noted kind k =
    if text_eq kind (codes "reply")
    then record k { has_reply = true; reply_count = suc k.reply_count }
    else if text_eq kind (codes "pix")
    then record k { has_pix = true }
    else record k { has_other_types = true }

unfoldable pub scan : List Text → Scan → Scan
unfolding text_eq codes
scan [] k = k
scan (kind ∷ kinds) k = scan kinds (noted kind k)

abbrev pub nothing_seen : Scan
nothing_seen = record {
  has_reply = false;
  has_pix = false;
  has_other_types = false;
  reply_count = 0;
}

abbrev pub judge : Scan → ℕ → Result ButtonError (Unit {0})
judge k n =
    if k.has_reply && leb 4 k.reply_count
    then err too_many_replies
    else if k.has_reply && k.has_other_types
    then err reply_mixed
    else if k.has_pix && leb 2 n
    then err pix_combined
    else ok tt

-- The checks before the buttons are built, on the kinds of the buttons.
unfoldable pub check_buttons : List Text → Result ButtonError (Unit {0})
unfolding scan
check_buttons kinds = judge (scan kinds nothing_seen) (length kinds)

abbrev pub replies : List Text → ℕ
replies kinds = length (select is_reply kinds)

abbrev pixes : List Text → ℕ
pixes kinds = length (select is_pix kinds)

abbrev others : List Text → ℕ
others kinds = length (select is_other kinds)

-- The kinds that pass: up to three replies, a single payment, or anything but these two.
abbrev pub allowed : List Text → Bool
allowed kinds =
    (all is_reply kinds && leb (length kinds) 3)
    || ((all is_pix kinds && length kinds == 1) || all is_other kinds)

-- One element more, of three sorts.
three_sorts :
    (kinds : List Text)
    → (replies kinds + (pixes kinds + others kinds) ≡ length kinds)
      × (all is_reply kinds ≡ (pixes kinds == 0 && others kinds == 0))
      × (all is_pix kinds ≡ (replies kinds == 0 && others kinds == 0))
      × (all is_other kinds ≡ (replies kinds == 0 && pixes kinds == 0))
three_sorts [] = (omega arith, refl, refl, refl)
three_sorts (kind ∷ kinds) =
    of (text_eq kind (codes "reply")) (text_eq kind (codes "pix")) (three_sorts kinds)
  where
    of :
        (a b : Bool)
        → (replies kinds + (pixes kinds + others kinds) ≡ length kinds)
          × (all is_reply kinds ≡ (pixes kinds == 0 && others kinds == 0))
          × (all is_pix kinds ≡ (replies kinds == 0 && others kinds == 0))
          × (all is_other kinds ≡ (replies kinds == 0 && pixes kinds == 0))
        → let r = length (if a then kind ∷ select is_reply kinds else select is_reply kinds) in
          let p = length (if not a && b then kind ∷ select is_pix kinds else select is_pix kinds) in
          let o =
            length
              (if not a && not b then kind ∷ select is_other kinds else select is_other kinds) in
          (r + (p + o) ≡ suc (length kinds))
          × ((a && all is_reply kinds) ≡ (p == 0 && o == 0))
          × (((not a && b) && all is_pix kinds) ≡ (r == 0 && o == 0))
          × (((not a && not b) && all is_other kinds) ≡ (r == 0 && p == 0))
    of true b (e, x, y, z) = (omega arith, x, ground arith, ground arith)
    of false true (e, x, y, z) = (omega arith, ground arith, y, ground arith)
    of false false (e, x, y, z) = (omega arith, ground arith, ground arith, z)

-- The loop counts the three sorts.
scan_lem :
    (kinds : List Text) (k : Scan)
    → ((scan kinds k).has_reply ≡ (k.has_reply || not (replies kinds == 0)))
      × ((scan kinds k).has_pix ≡ (k.has_pix || not (pixes kinds == 0)))
      × ((scan kinds k).has_other_types ≡ (k.has_other_types || not (others kinds == 0)))
      × ((scan kinds k).reply_count ≡ k.reply_count + replies kinds)
unfolding scan
scan_lem [] k = (ground arith, ground arith, ground arith, omega arith)
scan_lem (kind ∷ kinds) k =
    of (text_eq kind (codes "reply")) (text_eq kind (codes "pix")) (scan_lem kinds)
  where
    of :
        (a b : Bool)
        → ((j : Scan)
            → ((scan kinds j).has_reply ≡ (j.has_reply || not (replies kinds == 0)))
              × ((scan kinds j).has_pix ≡ (j.has_pix || not (pixes kinds == 0)))
              × ((scan kinds j).has_other_types ≡ (j.has_other_types || not (others kinds == 0)))
              × ((scan kinds j).reply_count ≡ j.reply_count + replies kinds))
        → let j : Scan =
            if a
            then record k { has_reply = true; reply_count = suc k.reply_count }
            else if b
            then record k { has_pix = true }
            else record k { has_other_types = true } in
          let r = length (if a then kind ∷ select is_reply kinds else select is_reply kinds) in
          let p = length (if not a && b then kind ∷ select is_pix kinds else select is_pix kinds) in
          let o =
            length
              (if not a && not b then kind ∷ select is_other kinds else select is_other kinds) in
          ((scan kinds j).has_reply ≡ (k.has_reply || not (r == 0)))
          × ((scan kinds j).has_pix ≡ (k.has_pix || not (p == 0)))
          × ((scan kinds j).has_other_types ≡ (k.has_other_types || not (o == 0)))
          × ((scan kinds j).reply_count ≡ k.reply_count + r)
    of true b ih =
        let (x, y, z, n) = ih (record k { has_reply = true; reply_count = suc k.reply_count }) in
        (ground arith, y, z, omega arith)
    of false true ih =
        let (x, y, z, n) = ih (record k { has_pix = true }) in (x, ground arith, z, n)
    of false false ih =
        let (x, y, z, n) = ih (record k { has_other_types = true }) in (x, y, ground arith, n)

judge_lem :
    (k : Scan) (r p o n : ℕ)
    → k.has_reply ≡ not (r == 0)
    → k.has_pix ≡ not (p == 0)
    → k.has_other_types ≡ not (o == 0)
    → k.reply_count ≡ r
    → r + (p + o) ≡ n
    → (judge k n ≡ ok tt) ↔ (
        (((p == 0 && o == 0) && leb n 3) || (((r == 0 && o == 0) && n == 1) || (r == 0 && p == 0)))
        ≡ true)
judge_lem k r p o n x y z c e = ground arith

-- The buttons of a message pass the checks just when they are at most three replies, or a single
-- payment, or neither a reply nor a payment is among them.
pub check_buttons_iff : (kinds : List Text) → (check_buttons kinds ≡ ok tt) ↔ (allowed kinds ≡ true)
unfolding check_buttons
check_buttons_iff kinds =
    let (x, y, z, c) = scan_lem kinds nothing_seen in
    let (e, all_reply, all_pix, all_other) = three_sorts kinds in
    rw (all_reply, all_pix, all_other)
      (judge_lem (scan kinds nothing_seen) (replies kinds) (pixes kinds) (others kinds)
        (length kinds) x y z (c ∙ omega arith) e)
