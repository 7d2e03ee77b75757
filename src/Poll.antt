-- ===== src/Poll.antt =====
-- pkg/poll/service/poll_service.go: the votes of polls. The table is a list of rows in the order
-- of their insertion, with the meaning of the two statements of SQL on it. A parameter `column` is
-- what a column of the type text[] gives back for the text that was put into it.
pub mod Tally
pub mod Votes
mod Tests
use webapp_wago.Base.{
  ℕ, suc, ◌+◌, Bool, true, false, not, ◌&&◌, List, [], ◌∷◌, ◌++◌, any, select, map, is_empty,
  length, drop, take, ◌-◌, leb, Option, none, some, if◌then◌else◌,
}
use webapp_wago.Base.Text.{
  Text, codes, text_eq, contains, has_prefix, has_suffix, split, split_first, join,
}

pub record PollVote : Type 0 where
  pub id : Text
  pub company_id : Text
  pub instance_id : Text
  pub poll_message_id : Text
  pub poll_chat_jid : Text
  pub vote_message_id : Text
  pub voter_jid : Text
  pub voter_phone : Text
  pub voter_name : Text
  pub selected_options : List Text
  pub voted_at : ℕ
  pub received_at : ℕ

-- A row of `poll_votes`: a vote with the text of its options.
pub record Row : Type 0 where
  pub vote : PollVote
  pub selected : Text

unfoldable pub string_array_to_postgres_array : List Text → Text
unfolding join codes
string_array_to_postgres_array [] = codes "{}"
string_array_to_postgres_array (a ∷ more) = b'{' ∷ join b',' (a ∷ more) ++ b'}' ∷ []

abbrev pub trim_prefix : ℕ → Text → Text
trim_prefix c s = if has_prefix s (c ∷ []) then drop 1 s else s

abbrev pub trim_suffix : ℕ → Text → Text
trim_suffix c s = if has_suffix s (c ∷ []) then take (length s - 1) s else s

unfoldable pub postgres_array_to_string_slice : Text → List Text
unfolding has_prefix has_suffix split
postgres_array_to_string_slice s =
    let inner = trim_suffix b'}' (trim_prefix b'{' s) in
    if is_empty inner then [] else split b',' inner

-- The row that `SavePollVote` inserts; `new_id` is the random identifier.
unfoldable pub row_of : Text → PollVote → Row
unfolding contains split_first string_array_to_postgres_array
row_of new_id v = record {
  vote = record v {
    id = (if is_empty v.id then new_id else v.id);
    voter_phone =
        (if is_empty v.voter_phone && contains v.voter_jid (b'@' ∷ [])
          then split_first b'@' v.voter_jid
          else v.voter_phone);
  };
  selected = string_array_to_postgres_array v.selected_options;
}

-- The constraint `unique_vote_per_poll`.
abbrev pub same_vote : Row → Row → Bool
same_vote r s =
    text_eq r.vote.poll_message_id s.vote.poll_message_id
    && text_eq r.vote.voter_jid s.vote.voter_jid

abbrev pub updated : Row → Row → Row
updated new old = record {
  vote = record (old.vote) { voted_at = new.vote.voted_at; received_at = new.vote.received_at };
  selected = new.selected;
}

unfoldable pub update_row : Row → List Row → List Row
unfolding text_eq
update_row new [] = []
update_row new (r ∷ rows) =
    let rest = update_row new rows in if same_vote r new then updated new r ∷ rest else r ∷ rest

-- `INSERT … ON CONFLICT (poll_message_id, voter_jid) DO UPDATE`, which fails where the identifier
-- of another row is taken.
unfoldable pub upsert : Row → List Row → Option (List Row)
unfolding text_eq update_row
upsert new rows =
    if any (λ r. same_vote r new) rows
    then some (update_row new rows)
    else if any (λ r. text_eq r.vote.id new.vote.id) rows
    then none
    else some (rows ++ new ∷ [])

abbrev pub or_same : Option (List Row) → List Row → Bool × List Row
or_same none rows = (false, rows)
or_same (some rows') rows = (true, rows')

-- `SavePollVote`: whether there is no error.
unfoldable pub save_poll_vote : Text → PollVote → List Row → Bool × List Row
unfolding row_of upsert
save_poll_vote new_id v rows = or_same (upsert (row_of new_id v) rows) rows

abbrev pub is_of : Text → Text → Row → Bool
is_of poll instance_id r =
    text_eq r.vote.poll_message_id poll && text_eq r.vote.instance_id instance_id

-- `ORDER BY voted_at ASC`.
unfoldable pub insert_by_time : Row → List Row → List Row
insert_by_time r [] = r ∷ []
insert_by_time r (s ∷ rows) =
    let rest = insert_by_time r rows in
    if leb r.vote.voted_at s.vote.voted_at then r ∷ s ∷ rows else s ∷ rest

unfoldable pub by_time : List Row → List Row
unfolding insert_by_time
by_time [] = []
by_time (r ∷ rows) = insert_by_time r (by_time rows)

unfoldable pub read_vote : (Text → Text) → Row → PollVote
unfolding postgres_array_to_string_slice
read_vote column r = record (r.vote) {
  selected_options = postgres_array_to_string_slice (column r.selected);
}

-- `optionCounts[option]++` over the options of a vote, and over the votes.
unfoldable pub count_options : List Text → (Text → ℕ) → Text → ℕ
unfolding text_eq
count_options [] counts o = counts o
count_options (a ∷ more) counts o =
    count_options more (λ b. if text_eq a b then suc (counts b) else counts b) o

unfoldable pub count_votes : List PollVote → (Text → ℕ) → Text → ℕ
unfolding count_options
count_votes [] counts o = counts o
count_votes (v ∷ vs) counts o = count_votes vs (count_options v.selected_options counts) o

pub record VoterInfo : Type 0 where
  pub jid : Text
  pub phone : Text
  pub name : Text
  pub selected_options : List Text
  pub voted_at : ℕ

pub record PollResults : Type 0 where
  pub poll_message_id : Text
  pub poll_chat_jid : Text
  pub total_votes : ℕ
  pub votes : List PollVote
  pub option_counts : Text → ℕ
  pub voters : List VoterInfo

abbrev pub voter_of : PollVote → VoterInfo
voter_of v = record {
  jid = v.voter_jid;
  phone = v.voter_phone;
  name = v.voter_name;
  selected_options = v.selected_options;
  voted_at = v.voted_at;
}

abbrev pub chat_of : List PollVote → Text
chat_of [] = []
chat_of (v ∷ vs) = v.poll_chat_jid

abbrev pub results_of : Text → List PollVote → PollResults
results_of poll vs = record {
  poll_message_id = poll;
  poll_chat_jid = chat_of vs;
  total_votes = length vs;
  votes = vs;
  option_counts = count_votes vs (λ o. 0);
  voters = map voter_of vs;
}

-- `GetPollResults` where the query works.
unfoldable pub get_poll_results : (Text → Text) → Text → Text → List Row → PollResults
unfolding text_eq by_time read_vote count_votes
get_poll_results column poll instance_id rows =
    results_of poll (map (read_vote column) (by_time (select (is_of poll instance_id) rows)))
