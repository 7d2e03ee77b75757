-- ===== src/Webhook/Names.antt =====
-- pkg/webhook/service/webhook_service.go: the names of groups and contacts, kept per instance.
use webapp_wago.Base.{
  ℕ, suc, Bool, true, false, List, [], ◌∷◌, Option, none, some, value_or, if◌then◌else◌,
}
use webapp_wago.Base.Text.{Text, text_eq}

-- A map from addresses to names; `names[jid]` of a missing address is the empty string.
abbrev pub NameMap : Type 0
NameMap = List (Text × Text)

unfoldable pub name_of : NameMap → Text → Text
unfolding text_eq
name_of [] jid = []
name_of ((k, v) ∷ names) jid = let rest = name_of names jid in if text_eq k jid then v else rest

-- `instanceNames`.
pub record InstanceNames : Type 0 where
  pub groups : NameMap
  pub contacts : NameMap
  pub groups_loaded : Bool
  pub contacts_loaded : Bool

-- `NameResolver`: a call may answer otherwise each time, so it is told how many came before.
pub record NameResolver : Type 0 where
  pub group_names : ℕ → Text → Option NameMap
  pub contact_names : ℕ → Text → Option NameMap

-- `nameCache`, and the number of calls of the resolver so far.
pub record NameState : Type 0 where
  pub name_cache : Text → Option InstanceNames
  pub calls : ℕ

abbrev pub no_names : InstanceNames
no_names = record { groups = []; contacts = []; groups_loaded = false; contacts_loaded = false }

abbrev pub entry : NameState → Text → InstanceNames
entry st i = value_or (st.name_cache i) no_names

unfoldable pub store_names : Text → InstanceNames → NameState → NameState
unfolding text_eq
store_names i n st = record {
  name_cache = λ j. if text_eq i j then some n else st.name_cache j;
  calls = st.calls;
}

abbrev pub called : NameState → NameState
called st = record { name_cache = st.name_cache; calls = suc st.calls }

abbrev pub with_groups : NameMap → InstanceNames → InstanceNames
with_groups names n = record {
  groups = names;
  contacts = n.contacts;
  groups_loaded = true;
  contacts_loaded = n.contacts_loaded;
}

abbrev pub with_contacts : NameMap → InstanceNames → InstanceNames
with_contacts names n = record {
  groups = n.groups;
  contacts = names;
  groups_loaded = n.groups_loaded;
  contacts_loaded = true;
}

-- What a fetched map does: nothing on an error, else it is stored and asked.
unfoldable pub learn :
    (NameMap → InstanceNames → InstanceNames)
    → Text
    → Text
    → Option NameMap
    → NameState
    → Text × NameState
unfolding store_names name_of
learn put i jid none st = ([], st)
learn put i jid (some names) st = (name_of names jid, store_names i (put names (entry st i)) st)

-- `groupName`.
unfoldable pub group_name : Option NameResolver → Text → Text → NameState → Text × NameState
unfolding learn name_of
group_name resolver i jid st =
    if (entry st i).groups_loaded then (name_of (entry st i).groups jid, st) else elim resolver [
      | none ↦ ([], st)
      | some r ↦ learn with_groups i jid (r.group_names st.calls i) (called st)
    ]

-- `contactName`.
unfoldable pub contact_name : Option NameResolver → Text → Text → NameState → Text × NameState
unfolding learn name_of
contact_name resolver i jid st =
    if (entry st i).contacts_loaded
    then (name_of (entry st i).contacts jid, st)
    else elim resolver [
      | none ↦ ([], st)
      | some r ↦ learn with_contacts i jid (r.contact_names st.calls i) (called st)
    ]

-- `InvalidateNames`.
unfoldable pub invalidate_names : Text → NameState → NameState
unfolding text_eq
invalidate_names i st = record {
  name_cache = λ j. if text_eq i j then none else st.name_cache j;
  calls = st.calls;
}

-- The lookups of an instance's dispatches: a group's name or a contact's.
pub data Lookup : Type 0 where
  group : Text → Lookup
  contact : Text → Lookup

unfoldable pub lookup : Option NameResolver → Text → Lookup → NameState → Text × NameState
unfolding group_name contact_name
lookup r i (group jid) st = group_name r i jid st
lookup r i (contact jid) st = contact_name r i jid st

unfoldable pub lookups : Option NameResolver → Text → List Lookup → NameState → NameState
unfolding lookup
lookups r i [] st = st
lookups r i (l ∷ ls) st = lookups r i ls (lookup r i l st).1
