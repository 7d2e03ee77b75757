-- ===== src/Poll/Tally.antt =====
-- pkg/poll/service/poll_service.go: what the results of a poll say of the votes that were saved.
use webapp_wago.Base.{
  ℕ, suc, ◌+◌, ◌-◌, ◌≤◌, Bool, true, false, leb, ◌&&◌, ◌||◌, List, [], ◌∷◌, ◌++◌, All, any, select,
  map, is_empty, length, take, Option, none, some, if◌then◌else◌, ◌≡◌, inl, inr, refl, ap, ◌∙◌,
  arith, Bool-cases, select-append, length-append,
}
use webapp_wago.Base.Text.{Text, codes, text_eq, text_eq_refl, has_prefix, has_suffix, join}
use webapp_wago.Base.Containment.{Lacks, has_suffix-append}
use webapp_wago.Base.Splitting.{split-join}
use webapp_wago.Poll.{
  PollVote, Row, row_of, same_vote, update_row, upsert, or_same, save_poll_vote,
  string_array_to_postgres_array, postgres_array_to_string_slice, trim_suffix, read_vote, is_of,
  by_time, count_options, count_votes, get_poll_results,
}
use webapp_wago.Poll.Votes.{is_vote, votes_in, is_vote_lem}

-- How often an option stands in a list.
abbrev pub times : Text → List Text → ℕ
times o options = length (select (λ a. text_eq a o) options)

abbrev pub all_options : List PollVote → List Text
all_options [] = []
all_options (v ∷ vs) = v.selected_options ++ all_options vs

count_options_lem :
    (options : List Text) (counts : Text → ℕ) (o : Text)
    → count_options options counts o ≡ counts o + times o options
unfolding count_options
count_options_lem [] counts o = omega arith
count_options_lem (a ∷ more) counts o =
    count_options_lem more (λ b. if text_eq a b then suc (counts b) else counts b) o
    ∙ of (text_eq a o)
  where
    of :
        (b : Bool)
        → (if b then suc (counts o) else counts o) + times o more
          ≡ counts o
            + length
                (if b then a ∷ select (λ x. text_eq x o) more else select (λ x. text_eq x o) more)
    of true = omega arith
    of false = refl

count_votes_lem :
    (vs : List PollVote) (counts : Text → ℕ) (o : Text)
    → count_votes vs counts o ≡ counts o + times o (all_options vs)
unfolding count_votes
count_votes_lem [] counts o = omega arith
count_votes_lem (v ∷ vs) counts o =
    let e : times o (v.selected_options ++ all_options vs)
        ≡ times o v.selected_options + times o (all_options vs) =
      ap length (select-append (λ a. text_eq a o) v.selected_options (all_options vs))
      ∙ length-append (select (λ a. text_eq a o) v.selected_options)
          (select (λ a. text_eq a o) (all_options vs)) in
    let h : count_options v.selected_options counts o ≡ counts o + times o v.selected_options =
      count_options_lem v.selected_options counts o in
    count_votes_lem vs (count_options v.selected_options counts) o ∙ omega (arith, e, h)

take-append : (s : Text) (c : ℕ) → take (length (s ++ c ∷ []) - 1) (s ++ c ∷ []) ≡ s
take-append s c =
    ap (λ n. take n (s ++ c ∷ []))
      (let e : length (s ++ c ∷ []) - 1 ≡ length s = omega (arith, length-append s (c ∷ [])) in e)
    ∙ of s
  where
    of : (t : Text) → take (length t) (t ++ c ∷ []) ≡ t
    of [] = refl
    of (d ∷ t) = ap (λ r. d ∷ r) (of t)

abbrev pub is_hex : ℕ → Bool
is_hex c = (leb b'0' c && leb c b'9') || (leb b'a' c && leb c b'f')

-- The hexadecimal text of a hash.
abbrev pub IsHex : Text → Type 0
IsHex a = (is_empty a ≡ false) × All (λ c. is_hex c ≡ true) a

hex-Lacks : (a : Text) → All (λ c. is_hex c ≡ true) a → Lacks b',' a
hex-Lacks [] h = tt
hex-Lacks (c ∷ a) (hc, h) = ((λ e. absurd (ground arith)), hex-Lacks a h)

joined-filled :
    (a : Text) (more : List Text) → is_empty a ≡ false → is_empty (join b',' (a ∷ more)) ≡ false
unfolding join
joined-filled [] more h = cc
joined-filled (c ∷ a) [] h = refl
joined-filled (c ∷ a) (b ∷ more) h = refl

hashes-Lacks : (options : List Text) → All IsHex options → All (Lacks b',') options
hashes-Lacks [] h = tt
hashes-Lacks (a ∷ more) ((e, l), h) = (hex-Lacks a l, hashes-Lacks more h)

array_lem :
    (options : List Text)
    → All IsHex options
    → postgres_array_to_string_slice (string_array_to_postgres_array options) ≡ options
unfolding postgres_array_to_string_slice string_array_to_postgres_array has_prefix has_suffix codes
array_lem [] h = refl
array_lem (a ∷ more) ((filled, hex), h) =
    let inner : Text = join b',' (a ∷ more) in
    rw (trimmed inner, joined-filled a more filled)
      (split-join b',' a more (hex-Lacks a hex, hashes-Lacks more h))
  where
    trimmed : (inner : Text) → trim_suffix b'}' (inner ++ b'}' ∷ []) ≡ inner
    trimmed inner = rw (has_suffix-append inner (b'}' ∷ [])) (take-append inner b'}')

-- The rows of a voter in a poll hold the options of a row.
abbrev Holds : Row → List Row → Type 0
Holds new rows =
    All (λ r. r.selected ≡ new.selected)
      (select (is_vote new.vote.poll_message_id new.vote.voter_jid) rows)

own_vote : (new : Row) → is_vote new.vote.poll_message_id new.vote.voter_jid new ≡ true
own_vote new = rw (text_eq_refl new.vote.poll_message_id, text_eq_refl new.vote.voter_jid) refl

update_row-Holds : (new : Row) (rows : List Row) → Holds new (update_row new rows)
unfolding update_row
update_row-Holds new [] = tt
update_row-Holds new (r ∷ rows) = elim (Bool-cases (same_vote r new)) [
  | inl e ↦
      (let q : is_vote new.vote.poll_message_id new.vote.voter_jid r ≡ true =
          is_vote_lem new r _ _ (own_vote new) ∙ e in
        rw (e, q) (refl, update_row-Holds new rows))
  | inr e ↦
      (let q : is_vote new.vote.poll_message_id new.vote.voter_jid r ≡ false =
          is_vote_lem new r _ _ (own_vote new) ∙ e in
        rw (e, q) (update_row-Holds new rows))
]

-- A row that is there for the voter and the poll of `new`, and all of them hold its options.
abbrev Stored : Row → List Row → Type 0
Stored new rows = (1 ≤ votes_in new.vote.poll_message_id new.vote.voter_jid rows) × Holds new rows

some_vote :
    (new : Row) (rows : List Row)
    → any (λ r. same_vote r new) rows ≡ true
    → 1 ≤ votes_in new.vote.poll_message_id new.vote.voter_jid (update_row new rows)
unfolding update_row
some_vote new [] h = cc
some_vote new (r ∷ rows) h = elim (Bool-cases (same_vote r new)) [
  | inl e ↦
      (let q : is_vote new.vote.poll_message_id new.vote.voter_jid r ≡ true =
          is_vote_lem new r _ _ (own_vote new) ∙ e in
        rw (e, q) (omega arith))
  | inr e ↦
      (let q : is_vote new.vote.poll_message_id new.vote.voter_jid r ≡ false =
          is_vote_lem new r _ _ (own_vote new) ∙ e in
        rw (e, q) (some_vote new rows (rw e at h)))
]

appended-Stored :
    (new : Row) (rows : List Row)
    → any (λ r. same_vote r new) rows ≡ false
    → Stored new (rows ++ new ∷ [])
appended-Stored new [] h = rw (own_vote new) (omega arith, (refl, tt))
appended-Stored new (r ∷ rows) h = elim (Bool-cases (same_vote r new)) [
  | inl e ↦ cc
  | inr e ↦
      (let q : is_vote new.vote.poll_message_id new.vote.voter_jid r ≡ false =
          is_vote_lem new r _ _ (own_vote new) ∙ e in
        rw q (appended-Stored new rows (rw e at h)))
]

upsert-Stored :
    (new : Row) (rows : List Row)
    → (or_same (upsert new rows) rows).0 ≡ true
    → Stored new (or_same (upsert new rows) rows).1
unfolding upsert
upsert-Stored new rows done =
    of (any (λ r. same_vote r new) rows) (any (λ r. text_eq r.vote.id new.vote.id) rows) refl done
  where
    of :
        (b d : Bool)
        → any (λ r. same_vote r new) rows ≡ b
        → let o : Option (List Row) =
            if b then some (update_row new rows) else if d then none else some (rows ++ new ∷ []) in
          (or_same o rows).0 ≡ true → Stored new (or_same o rows).1
    of true d e k = (some_vote new rows e, update_row-Holds new rows)
    of false true e k = cc
    of false false e k = appended-Stored new rows e

read_back :
    (column : Text → Text) (options : List Text) (s : Text) (rows : List Row)
    → postgres_array_to_string_slice (column s) ≡ options
    → All (λ r. r.selected ≡ s) rows
    → All (λ r. (read_vote column r).selected_options ≡ options) rows
unfolding read_vote
read_back column options s [] e h = tt
read_back column options s (r ∷ rows) e (hr, h) = (
  ap (λ q. postgres_array_to_string_slice (column q)) hr ∙ e,
  read_back column options s rows e h,
)

-- What PostgreSQL does with arrays of elements that need no quotes.
abbrev pub KeepsHashes : (Text → Text) → Type 0
KeepsHashes column =
    (options : List Text)
    → All IsHex options
    → column (string_array_to_postgres_array options) ≡ string_array_to_postgres_array options

-- Where the column gives arrays of hexadecimal texts back as they are, a vote for options that are
-- such texts, as the hashes of WhatsApp are, is read back with these options: SavePollVote without
-- an error leaves a row for the voter and the poll, and every such row has the options of the vote,
-- so that a later vote replaces an earlier one.
pub save_poll_vote-read_vote :
    (column : Text → Text) (new_id : Text) (v : PollVote) (rows : List Row)
    → KeepsHashes column
    → All IsHex v.selected_options
    → (save_poll_vote new_id v rows).0 ≡ true
    → let rows' = (save_poll_vote new_id v rows).1 in
      (1 ≤ votes_in v.poll_message_id v.voter_jid rows')
      × All
          (λ r. (read_vote column r).selected_options ≡ v.selected_options)
          (select (is_vote v.poll_message_id v.voter_jid) rows')
unfolding save_poll_vote row_of
save_poll_vote-read_vote column new_id v rows keeps hashes done =
    let (some_row, same) = upsert-Stored (row_of new_id v) rows done in
    let stored : Text = string_array_to_postgres_array v.selected_options in
    (
      some_row,
      read_back column v.selected_options stored _
          (ap postgres_array_to_string_slice (keeps v.selected_options hashes)
            ∙ array_lem v.selected_options hashes)
          same,
    )

-- In the results of a poll, the count of an option is the number of times that it stands among
-- the options of the votes listed.
pub get_poll_results-option_counts :
    (column : Text → Text) (poll instance_id : Text) (rows : List Row) (o : Text)
    → (get_poll_results column poll instance_id rows).option_counts o
      ≡ times o (all_options (get_poll_results column poll instance_id rows).votes)
unfolding get_poll_results
get_poll_results-option_counts column poll instance_id rows o =
    count_votes_lem (get_poll_results column poll instance_id rows).votes (λ b. 0) o ∙ omega arith

-- No row of an instance comes up when a vote replaces another.
update_row-instance :
    (poll instance_id : Text) (new : Row) (rows : List Row)
    → any (is_of poll instance_id) rows ≡ false
    → select (is_of poll instance_id) (update_row new rows) ≡ []
unfolding update_row
update_row-instance poll instance_id new [] h = refl
update_row-instance poll instance_id new (r ∷ rows) h =
    let (k, k') = neither (is_of poll instance_id r) (any (is_of poll instance_id) rows) h in
    elim (Bool-cases (same_vote r new)) [
      | inl e ↦ rw (e, k) (update_row-instance poll instance_id new rows k')
      | inr e ↦ rw (e, k) (update_row-instance poll instance_id new rows k')
    ]
  where
    neither : (a b : Bool) → (a || b) ≡ false → (a ≡ false) × (b ≡ false)
    neither true b h = cc
    neither false b h = (refl, h)

-- Where there is a vote of the same voter in the same poll, but none yet that this instance has
-- saved in the poll, SavePollVote of this instance reports success, and GetPollResults of this
-- instance still counts no vote: a second instance in the chat gets no row of its own.
pub save_poll_vote-instances :
    (column : Text → Text) (new_id : Text) (v : PollVote) (rows : List Row)
    → any (λ r. same_vote r (row_of new_id v)) rows ≡ true
    → any (is_of v.poll_message_id v.instance_id) rows ≡ false
    → ((save_poll_vote new_id v rows).0 ≡ true)
      × ((get_poll_results column v.poll_message_id v.instance_id
            (save_poll_vote new_id v rows).1).total_votes
          ≡ 0)
unfolding save_poll_vote upsert get_poll_results by_time
save_poll_vote-instances column new_id v rows e none_yet = rw e (
  refl,
  ap (λ rs. length (map (read_vote column) (by_time rs)))
      (update_row-instance v.poll_message_id v.instance_id (row_of new_id v) rows none_yet),
)
