-- ===== src/Poll/Tests.antt =====
-- Votes of pkg/poll/service at concrete polls, and the theorems about them.
use webapp_wago.Base.{
  ◌≤◌, true, false, List, [], ◌∷◌, All, any, map, select, length, ◌≡◌, refl, arith,
}
use webapp_wago.Base.Text.{
  Text, codes, text_eq, contains, has_prefix, has_suffix, split, split_first, join,
}
use webapp_wago.Poll.{
  PollVote, Row, row_of, same_vote, update_row, upsert, save_poll_vote,
  string_array_to_postgres_array, postgres_array_to_string_slice, insert_by_time, by_time,
  read_vote, count_options, count_votes, get_poll_results, is_of,
}
use webapp_wago.Poll.Votes.{votes_in, is_vote, IsUnique, save_all, save_all-IsUnique}
use webapp_wago.Poll.Tally.{
  IsHex, times, all_options, save_poll_vote-read_vote, get_poll_results-option_counts,
  save_poll_vote-instances,
}

polls : Unit {0}
unfolding text_eq codes contains has_prefix has_suffix split split_first join row_of update_row
    upsert save_poll_vote string_array_to_postgres_array postgres_array_to_string_slice
    insert_by_time by_time read_vote count_options count_votes get_poll_results save_all
polls = tt

abbrev vote : PollVote
vote = record {
  id = [];
  company_id = codes "c";
  instance_id = codes "a";
  poll_message_id = codes "p";
  poll_chat_jid = codes "1@g.us";
  vote_message_id = codes "m";
  voter_jid = codes "54@s.whatsapp.net";
  voter_phone = [];
  voter_name = codes "n";
  selected_options = codes "0a" ∷ codes "1b" ∷ [];
  voted_at = 1;
  received_at = 1;
}

-- The same voter, seen by another instance, with another choice.
abbrev again : PollVote
again = record vote { instance_id = codes "b"; selected_options = codes "1b" ∷ []; voted_at = 2 }

-- A column that keeps its text.
abbrev kept : Text → Text
kept s = s

abbrev table : List Row
table = (save_poll_vote (codes "1") vote []).1

one_row : length (save_poll_vote (codes "2") again table).1 ≡ 1
unfolding polls
one_row = refl

phone : map (λ r. r.vote.voter_phone) table ≡ codes "54" ∷ []
unfolding polls
phone = refl

counted :
    (get_poll_results kept
        (codes "p")
        (codes "a")
        (save_poll_vote (codes "2") again table).1).option_counts
      (codes "1b")
    ≡ 1
unfolding polls
counted = refl

missed :
    (get_poll_results kept
      (codes "p")
      (codes "b")
      (save_poll_vote (codes "2") again table).1).total_votes
    ≡ 0
unfolding polls
missed = refl

taken_id : (save_poll_vote (codes "1") (record vote { voter_jid = codes "55" }) table).0 ≡ false
unfolding polls
taken_id = refl

no_rows : IsUnique []
no_rows poll voter = omega arith

save_all-IsUnique_example : IsUnique (save_all ((codes "1", vote) ∷ (codes "2", again) ∷ []) [])
save_all-IsUnique_example =
    save_all-IsUnique ((codes "1", vote) ∷ (codes "2", again) ∷ []) [] no_rows

hashes : All IsHex again.selected_options
unfolding polls
hashes = ((refl, (refl, (refl, tt))), tt)

saved : (save_poll_vote (codes "2") again table).0 ≡ true
unfolding polls
saved = refl

save_poll_vote-read_vote_example :
    (1 ≤ votes_in again.poll_message_id again.voter_jid (save_poll_vote (codes "2") again table).1)
    × All
        (λ r. (read_vote kept r).selected_options ≡ again.selected_options)
        (select
          (is_vote again.poll_message_id again.voter_jid)
          (save_poll_vote (codes "2") again table).1)
save_poll_vote-read_vote_example =
    save_poll_vote-read_vote kept (codes "2") again table (λ options h. refl) hashes saved

get_poll_results-option_counts_example :
    (get_poll_results kept (codes "p") (codes "a") table).option_counts (codes "1b")
    ≡ times (codes "1b") (all_options (get_poll_results kept (codes "p") (codes "a") table).votes)
get_poll_results-option_counts_example =
    get_poll_results-option_counts kept (codes "p") (codes "a") table (codes "1b")

in_conflict : any (λ r. same_vote r (row_of (codes "2") again)) table ≡ true
unfolding polls
in_conflict = refl

no_vote_of_b : any (is_of (codes "p") (codes "b")) table ≡ false
unfolding polls
no_vote_of_b = refl

save_poll_vote-instances_example :
    ((save_poll_vote (codes "2") again table).0 ≡ true)
    × ((get_poll_results kept
          (codes "p")
          (codes "b")
          (save_poll_vote (codes "2") again table).1).total_votes
        ≡ 0)
save_poll_vote-instances_example =
    save_poll_vote-instances kept (codes "2") again table in_conflict no_vote_of_b
