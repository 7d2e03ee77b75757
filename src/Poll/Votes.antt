-- ===== src/Poll/Votes.antt =====
-- pkg/poll/service/poll_service.go: one vote of a voter in a poll, and whose it is.
use webapp_wago.Base.{
  ℕ, suc, ◌+◌, ◌≤◌, Bool, true, false, ◌&&◌, List, [], ◌∷◌, ◌++◌, any, select, length, none, some,
  if◌then◌else◌, ◌≡◌, inl, inr, refl, sym, ap, ap₂, ◌∙◌, subst, arith, and-true, Bool-cases,
  select-append, length-append,
}
use webapp_wago.Base.Text.{Text, text_eq, text_eq→eq}
use webapp_wago.Poll.{
  PollVote, Row, row_of, same_vote, updated, update_row, upsert, or_same, save_poll_vote,
}

-- The rows of a voter in a poll, and of no other row.
abbrev pub is_vote : Text → Text → Row → Bool
is_vote poll voter r = text_eq r.vote.poll_message_id poll && text_eq r.vote.voter_jid voter

abbrev pub votes_in : Text → Text → List Row → ℕ
votes_in poll voter rows = length (select (is_vote poll voter) rows)

-- The constraint of the table.
abbrev pub IsUnique : List Row → Type 0
IsUnique rows = (poll voter : Text) → votes_in poll voter rows ≤ 1

-- A list that grows by a row of the voter or by another one.
grow :
    (b : Bool) (x y : Row) (xs ys : List Row)
    → length xs ≡ length ys
    → length (if b then x ∷ xs else xs) ≡ length (if b then y ∷ ys else ys)
grow true x y xs ys e = ap (λ n. suc n) e
grow false x y xs ys e = e

update_row-votes_in :
    (new : Row) (rows : List Row) (poll voter : Text)
    → votes_in poll voter (update_row new rows) ≡ votes_in poll voter rows
unfolding update_row
update_row-votes_in new [] poll voter = refl
update_row-votes_in new (r ∷ rows) poll voter = elim (Bool-cases (same_vote r new)) [
  | inl e ↦
      rw e (
        grow (is_vote poll voter r) (updated new r) r _ _ (update_row-votes_in new rows poll voter))
  | inr e ↦ rw e (grow (is_vote poll voter r) r r _ _ (update_row-votes_in new rows poll voter))
]

-- For the voter and the poll of a row, the rows are those in conflict with it.
pub is_vote_lem :
    (new r : Row) (poll voter : Text)
    → is_vote poll voter new ≡ true
    → is_vote poll voter r ≡ same_vote r new
is_vote_lem new r poll voter h =
    let (e, e') =
      and-true (text_eq new.vote.poll_message_id poll) (text_eq new.vote.voter_jid voter) h in
    ap₂ (λ (p v : Text). text_eq r.vote.poll_message_id p && text_eq r.vote.voter_jid v)
      (sym (text_eq→eq new.vote.poll_message_id poll e))
      (sym (text_eq→eq new.vote.voter_jid voter e'))

pub no_votes :
    (new : Row) (poll voter : Text) (rows : List Row)
    → any (λ r. same_vote r new) rows ≡ false
    → is_vote poll voter new ≡ true
    → votes_in poll voter rows ≡ 0
no_votes new poll voter [] h e = refl
no_votes new poll voter (r ∷ rows) h e = elim (Bool-cases (same_vote r new)) [
  | inl k ↦ cc
  | inr k ↦
      (let q : is_vote poll voter r ≡ false = is_vote_lem new r poll voter e ∙ k in
        rw q (no_votes new poll voter rows (rw k at h) e))
]

votes_in-append :
    (poll voter : Text) (rows : List Row) (new : Row)
    → votes_in poll voter (rows ++ new ∷ [])
      ≡ votes_in poll voter rows + votes_in poll voter (new ∷ [])
votes_in-append poll voter rows new =
    ap length (select-append (is_vote poll voter) rows (new ∷ []))
    ∙ length-append (select (is_vote poll voter) rows) (select (is_vote poll voter) (new ∷ []))

appended-IsUnique :
    (new : Row) (rows : List Row)
    → IsUnique rows
    → any (λ r. same_vote r new) rows ≡ false
    → IsUnique (rows ++ new ∷ [])
appended-IsUnique new rows u h poll voter =
    subst (λ n. n ≤ 1) (sym (votes_in-append poll voter rows new))
      (of (is_vote poll voter new) refl)
  where
    of :
        (b : Bool)
        → is_vote poll voter new ≡ b
        → votes_in poll voter rows + length (if b then new ∷ [] else []) ≤ 1
    of true e =
        let z : votes_in poll voter rows ≡ 0 = no_votes new poll voter rows h e in omega arith
    of false e = let k : votes_in poll voter rows ≤ 1 = u poll voter in omega arith

upsert-IsUnique :
    (new : Row) (rows : List Row) → IsUnique rows → IsUnique (or_same (upsert new rows) rows).1
unfolding upsert
upsert-IsUnique new rows u = elim (Bool-cases (any (λ r. same_vote r new) rows)) [
  | inl e ↦ rw e (λ poll voter.
      subst (λ n. n ≤ 1) (sym (update_row-votes_in new rows poll voter)) (u poll voter))
  | inr e ↦ rw e (of (any (λ r. text_eq r.vote.id new.vote.id) rows) e)
]
  where
    of :
        (b : Bool)
        → any (λ r. same_vote r new) rows ≡ false
        → IsUnique (or_same (if b then none else some (rows ++ new ∷ [])) rows).1
    of true e = u
    of false e = appended-IsUnique new rows u e

-- Votes that are saved one after the other, each with the identifier that would be made for it.
unfoldable pub save_all : List (Text × PollVote) → List Row → List Row
unfolding save_poll_vote
save_all [] rows = rows
save_all ((new_id, v) ∷ vs) rows = save_all vs (save_poll_vote new_id v rows).1

-- Whatever votes are saved, and whichever of them fail, a table that starts without two votes of
-- one voter in one poll never has two.
pub save_all-IsUnique :
    (vs : List (Text × PollVote)) (rows : List Row) → IsUnique rows → IsUnique (save_all vs rows)
unfolding save_all save_poll_vote
save_all-IsUnique [] rows u = u
save_all-IsUnique ((new_id, v) ∷ vs) rows u =
    save_all-IsUnique vs (save_poll_vote new_id v rows).1 (upsert-IsUnique (row_of new_id v) rows u)
