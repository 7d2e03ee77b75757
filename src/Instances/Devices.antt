-- ===== src/Instances/Devices.antt =====
-- ForceUpdateJid of pkg/whatsmeow/service/whatsmeow.go: the device of the latest session of a
-- number. The query is a parameter that is given its text.
use webapp_wago.Base.{
  true, false, not, ◌&&◌, List, [], ◌∷◌, ◌++◌, is_empty, All, Any, Option, none, some, Result, ok,
  err, if◌then◌else◌, ◌≡◌, ◌⊎◌,
}
use webapp_wago.Base.Text.{Text, codes, split, split_first}
use webapp_wago.Base.Int.{ℤ, pos, ltb_int}
use webapp_wago.Base.Number.{atoi}
use webapp_wago.Instances.{Instance}
use webapp_wago.Instances.Store.{Gorm, DbFailure, get_instance_by_id}

-- The session in an address: there is none where it has not two parts at a colon, and what is
-- found there need not be a number.
abbrev pub session_in : List Text → Option (Option ℤ)
session_in (user ∷ rest ∷ []) = some (atoi (split_first b'@' rest))
session_in _ = none

unfoldable pub session_of : Text → Option (Option ℤ)
unfolding atoi split split_first
session_of jid = session_in (split b':' jid)

pub record Latest : Type 0 where
  pub latest_jid : Text
  pub latest_session : ℤ

abbrev pub later : Text → ℤ → Latest → Latest
later jid z l =
    if ltb_int l.latest_session z then record { latest_jid = jid; latest_session = z } else l

abbrev pub visit : {E : Type 0} → E → Text → Option (Option ℤ) → Latest → Result E Latest
visit e jid none l = ok l
visit e jid (some none) l = err e
visit e jid (some (some z)) l = ok (later jid z l)

abbrev pub and_then : {E : Type 0} → Result E Latest → (Latest → Result E Latest) → Result E Latest
and_then (err e) k = err e
and_then (ok l) k = k l

-- The loop over the rows; `e` is the error for a session that is no number.
unfoldable pub latest : {E : Type 0} → E → List Text → Latest → Result E Latest
unfolding session_of
latest e [] l = ok l
latest e (jid ∷ rows) l = and_then (visit e jid (session_of jid) l) (latest e rows)

abbrev pub no_session_yet : Latest
no_session_yet = record { latest_jid = []; latest_session = pos 0 }

pub data JidFailure (E : Type 0) : Type 0 where
  unknown : DbFailure E → JidFailure E
  query_failed : JidFailure E
  bad_session : JidFailure E

-- The text of the query.
unfoldable pub device_search : Text → Text
unfolding codes
device_search number =
    codes "SELECT jid FROM whatsmeow_device WHERE jid LIKE '%" ++ number ++ codes "%'"

module _ {D E : Type 0} (g : Gorm D E) (rows_of : Text → Option (List Text)) where
  -- An error of the update is only logged.
  abbrev pub keep_latest :
      Text → Result (JidFailure E) Latest → D → Result (JidFailure E) (Unit {0}) × D
  keep_latest i (err e) d = (err e, d)
  keep_latest i (ok l) d =
      if is_empty l.latest_jid then (ok tt, d) else (ok tt, (g.set_jid i l.latest_jid d).1)

  abbrev pub searched : Text → Option (List Text) → D → Result (JidFailure E) (Unit {0}) × D
  searched i none d = (err query_failed, d)
  searched i (some rows) d = keep_latest i (latest bad_session rows no_session_yet) d

  abbrev pub jid_found :
      Text → Text → Result (DbFailure E) Instance → D → Result (JidFailure E) (Unit {0}) × D
  jid_found i number (err e) d = (err (unknown e), d)
  jid_found i number (ok found) d =
      if is_empty found.jid && not (is_empty number)
      then searched i (rows_of (device_search number)) d
      else (ok tt, d)

  unfoldable pub force_update_jid : Text → Text → D → Result (JidFailure E) (Unit {0}) × D
  unfolding get_instance_by_id latest device_search
  force_update_jid i number d = jid_found i number (get_instance_by_id g i d) d

-- The session of an address, where it has one, is a number and no later than another.
abbrev pub NoLater : ℤ → Option (Option ℤ) → Type 0
NoLater n none = Unit
NoLater n (some none) = ⊥
NoLater n (some (some z)) = ltb_int n z ≡ false

-- The loop that goes from `l` to `l'` over the rows ends with one of the latest sessions, or with
-- `l` where none is later.
abbrev pub IsLatest : List Text → Latest → Latest → Type 0
IsLatest rows l l' =
    All (λ jid. NoLater l'.latest_session (session_of jid)) rows
    × (ltb_int l'.latest_session l.latest_session ≡ false)
    × ((l' ≡ l)
        ⊎ ((ltb_int l.latest_session l'.latest_session ≡ true)
            × Any (λ jid. (jid ≡ l'.latest_jid) × (session_of jid ≡ some (some l'.latest_session)))
                rows))
