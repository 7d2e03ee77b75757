-- ===== src/Webhook/Fetches.antt =====
-- How often the names of an instance are fetched.
use webapp_wago.Base.{
  ℕ, suc, ◌+◌, ◌≤◌, Bool, true, false, List, [], ◌∷◌, Option, none, some, value_or, if◌then◌else◌,
  ◌≡◌, refl, sym, ap, subst, ◌∙◌, arith, Bool-cases, inl, inr,
}
use webapp_wago.Base.Text.{Text, text_eq_refl}
use webapp_wago.Webhook.Names.{
  InstanceNames, NameMap, NameResolver, NameState, Lookup, group, contact, entry, no_names,
  store_names, called, with_groups, with_contacts, learn, group_name, contact_name,
  invalidate_names, lookup, lookups, name_of,
}

-- A resolver that answers each time.
abbrev pub Answers : NameResolver → Text → Type 0
Answers r i =
    ((n : ℕ) → (m : NameMap) × (r.group_names n i ≡ some m))
    × ((n : ℕ) → (m : NameMap) × (r.contact_names n i ≡ some m))

-- The fetches still to come.
abbrev missing : Bool → ℕ
missing b = if b then 0 else 1

abbrev debt : InstanceNames → ℕ
debt n = missing n.groups_loaded + missing n.contacts_loaded

stored : (i : Text) (n : InstanceNames) (st : NameState) → entry (store_names i n st) i ≡ n
unfolding store_names
stored i n st = ap (λ b. value_or (if b then some n else st.name_cache i) no_names) (text_eq_refl i)

module _ (r : NameResolver) (i jid : Text) (st : NameState) where
  group_name_kept :
      (o : Option NameResolver)
      → (entry st i).groups_loaded ≡ true
      → group_name o i jid st ≡ (name_of (entry st i).groups jid, st)
  unfolding group_name
  group_name_kept o e = rw e refl

  group_name_fetched :
      {m : NameMap}
      → (entry st i).groups_loaded ≡ false
      → r.group_names st.calls i ≡ some m
      → group_name (some r) i jid st
        ≡ (name_of m jid, store_names i (with_groups m (entry st i)) (called st))
  unfolding group_name learn
  group_name_fetched e f = rw (e, f) refl

  contact_name_kept :
      (o : Option NameResolver)
      → (entry st i).contacts_loaded ≡ true
      → contact_name o i jid st ≡ (name_of (entry st i).contacts jid, st)
  unfolding contact_name
  contact_name_kept o e = rw e refl

  contact_name_fetched :
      {m : NameMap}
      → (entry st i).contacts_loaded ≡ false
      → r.contact_names st.calls i ≡ some m
      → contact_name (some r) i jid st
        ≡ (name_of m jid, store_names i (with_contacts m (entry st i)) (called st))
  unfolding contact_name learn
  contact_name_fetched e f = rw (e, f) refl

calls_stored :
    (i : Text) (n : InstanceNames) (st : NameState) → (store_names i n st).calls ≡ st.calls
unfolding store_names
calls_stored i n st = refl

-- Calls made and fetches to come, after a fetch that fills one of two gaps.
paid :
    (i : Text) (n : InstanceNames) (st : NameState) (d : ℕ)
    → suc (debt n) ≡ d
    → (store_names i n (called st)).calls + debt (entry (store_names i n (called st)) i)
      ≡ st.calls + d
paid i n st d e = rw (calls_stored i n (called st), stored i n (called st)) (omega (arith, e))

lookup-debt :
    (r : NameResolver) (i : Text) (l : Lookup) (st : NameState)
    → Answers r i
    → (lookup (some r) i l st).1.calls + debt (entry (lookup (some r) i l st).1 i)
      ≡ st.calls + debt (entry st i)
unfolding lookup
lookup-debt r i (group jid) st (g, c) = elim (Bool-cases (entry st i).groups_loaded) [
  | inl e ↦
      (let e' : (group_name (some r) i jid st).1 ≡ st =
          ap (λ p. p.1) (group_name_kept r i jid st (some r) e) in
        rw e' refl)
  | inr e ↦
      (let (m, f) = g st.calls in
        let e' = ap (λ p. p.1) (group_name_fetched r i jid st e f) in
        ap (λ st'. st'.calls + debt (entry st' i)) e'
        ∙ paid i (with_groups m (entry st i)) st (debt (entry st i)) (rw e (omega arith)))
]
lookup-debt r i (contact jid) st (g, c) = elim (Bool-cases (entry st i).contacts_loaded) [
  | inl e ↦
      (let e' : (contact_name (some r) i jid st).1 ≡ st =
          ap (λ p. p.1) (contact_name_kept r i jid st (some r) e) in
        rw e' refl)
  | inr e ↦
      (let (m, f) = c st.calls in
        let e' = ap (λ p. p.1) (contact_name_fetched r i jid st e f) in
        ap (λ st'. st'.calls + debt (entry st' i)) e'
        ∙ paid i (with_contacts m (entry st i)) st (debt (entry st i)) (rw e (omega arith)))
]

lookups-debt :
    (r : NameResolver) (i : Text) (ls : List Lookup) (st : NameState)
    → Answers r i
    → (lookups (some r) i ls st).calls + debt (entry (lookups (some r) i ls st) i)
      ≡ st.calls + debt (entry st i)
unfolding lookups
lookups-debt r i [] st a = refl
lookups-debt r i (l ∷ ls) st a =
    lookups-debt r i ls (lookup (some r) i l st).1 a ∙ lookup-debt r i l st a

debt_le : (b : Bool) → missing b ≤ 1
debt_le true = omega arith
debt_le false = omega arith

forgotten : (i : Text) (st : NameState) → debt (entry (invalidate_names i st) i) ≡ 2
unfolding invalidate_names
forgotten i st =
    ap (λ b. debt (value_or (if b then none else st.name_cache i) no_names)) (text_eq_refl i)

-- With a resolver that answers, the lookups that follow an invalidation, however many groups and
-- contacts they ask for, call the resolver at most twice until the next invalidation.
pub lookups-calls :
    (r : NameResolver) (i : Text) (ls : List Lookup) (st : NameState)
    → Answers r i
    → (lookups (some r) i ls (invalidate_names i st)).calls ≤ st.calls + 2
unfolding invalidate_names
lookups-calls r i ls st a =
    omega (arith, lookups-debt r i ls (invalidate_names i st) a, forgotten i st)

-- Right after any lookup with a resolver that answers, the same lookup gives the same name and
-- asks the resolver nothing: the state stays as it is.
pub lookup_again :
    (r : NameResolver) (i : Text) (l : Lookup) (st : NameState)
    → Answers r i
    → let (name, st') = lookup (some r) i l st in lookup (some r) i l st' ≡ (name, st')
unfolding lookup
lookup_again r i (group jid) st (g, c) = elim (Bool-cases (entry st i).groups_loaded) [
  | inl e ↦
      (let e' = group_name_kept r i jid st (some r) e in
        subst (λ p. group_name (some r) i jid p.1 ≡ (p.0, p.1)) (sym e') e')
  | inr e ↦
      (let (m, f) = g st.calls in
        let st' : NameState = store_names i (with_groups m (entry st i)) (called st) in
        let k : entry st' i ≡ with_groups m (entry st i) =
          stored i (with_groups m (entry st i)) (called st) in
        let again : group_name (some r) i jid st' ≡ (name_of (entry st' i).groups jid, st') =
          group_name_kept r i jid st' (some r) (ap (λ n. n.groups_loaded) k) in
        subst (λ p. group_name (some r) i jid p.1 ≡ (p.0, p.1))
          (sym (group_name_fetched r i jid st e f))
          (again ∙ ap (λ n. (name_of n.groups jid, st')) k))
]
lookup_again r i (contact jid) st (g, c) = elim (Bool-cases (entry st i).contacts_loaded) [
  | inl e ↦
      (let e' = contact_name_kept r i jid st (some r) e in
        subst (λ p. contact_name (some r) i jid p.1 ≡ (p.0, p.1)) (sym e') e')
  | inr e ↦
      (let (m, f) = c st.calls in
        let st' : NameState = store_names i (with_contacts m (entry st i)) (called st) in
        let k : entry st' i ≡ with_contacts m (entry st i) =
          stored i (with_contacts m (entry st i)) (called st) in
        let again : contact_name (some r) i jid st' ≡ (name_of (entry st' i).contacts jid, st') =
          contact_name_kept r i jid st' (some r) (ap (λ n. n.contacts_loaded) k) in
        subst (λ p. contact_name (some r) i jid p.1 ≡ (p.0, p.1))
          (sym (contact_name_fetched r i jid st e f))
          (again ∙ ap (λ n. (name_of n.contacts jid, st')) k))
]
