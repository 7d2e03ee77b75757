-- ===== src/Auth.antt =====
-- pkg/middleware/auth_middleware.go: who may call the interface.
mod Tests
use webapp_wago.Base.{
  Bool, true, false, not, is_empty, List, any, Any, Option, none, some, Result, ok, err,
  if◌then◌else◌, ◌≡◌, ◌≢◌, ◌↔◌, inl, inr, refl, sym, ◌∙◌, [], ◌∷◌, Bool-cases,
}
use webapp_wago.Base.Text.{Text, text_eq, text_eq→eq, text_eq_refl}
use webapp_wago.Instances.{Instance}
use webapp_wago.Instances.Store.{Gorm, get_instance_by_token}

-- An answer 401, or the next handler, which finds the instance in the context.
pub data Verdict (I : Type 0) : Type 0 where
  not_authorized : Verdict I
  go_on : Option I → Verdict I

abbrev pub with_instance : {E I : Type 0} → Result E I → Verdict I
with_instance (err e) = not_authorized
with_instance (ok i) = go_on (some i)

-- `Auth`, on the database.
unfoldable pub auth : {D E : Type 0} → Gorm D E → Text → D → Verdict Instance
auth g token d =
    if is_empty token then not_authorized else with_instance (get_instance_by_token g token d)

unfoldable pub auth_admin : {I : Type 0} → Text → Text → Verdict I
unfolding text_eq
auth_admin global_api_key token =
    if is_empty token
    then not_authorized
    else if not (text_eq token global_api_key)
    then not_authorized
    else go_on none

abbrev pub admin : {I : Type 0} → Verdict I
admin = go_on none

abbrev pub has_token : Text → Instance → Bool
has_token token i = text_eq i.token token

-- A query for the first row with a token, which does not fail otherwise.
pub record TokenQuery {D E : Type 0} (g : Gorm D E) (rows : D → List Instance) : Type 0 where
  pub found :
      (token : Text) (d : D) {i : Instance}
      → g.first_by_token token d ≡ ok i
      → (i.token ≡ token) × Any (λ j. j ≡ i) (rows d)
  pub finds :
      (token : Text) (d : D)
      → any (has_token token) (rows d) ≡ true
      → (i : Instance) × (g.first_by_token token d ≡ ok i)

-- A request passes as the administrator exactly where its token is the configured key and that
-- key is not empty, so that a server without a key has no administrator.
pub auth_admin-go_on_iff :
    {I : Type 0} (key token : Text)
    → (auth_admin {I = I} key token ≡ admin) ↔ ((key ≢ []) × (token ≡ key))
unfolding auth_admin
auth_admin-go_on_iff {I = I} key [] = (λ h. cc, λ (n, e). absurd (n (sym e)))
auth_admin-go_on_iff {I = I} key (c ∷ s) = (of, λ (n, e). rw (← e, text_eq_refl (c ∷ s)) refl)
  where
    of :
        ◌≡◌ {A = Verdict I} (if not (text_eq (c ∷ s) key) then not_authorized else go_on none) admin
        → (key ≢ []) × ((c ∷ s) ≡ key)
    of h = elim (Bool-cases (text_eq (c ∷ s) key)) [
      | inl e ↦
          (let k : (c ∷ s) ≡ key = text_eq→eq (c ∷ s) key e in
            (λ z. (let z' : ◌≡◌ {A = Text} (c ∷ s) [] = k ∙ z in cc), k))
      | inr e ↦ (let h' : ◌≡◌ {A = Verdict I} not_authorized admin = rw e at h in cc)
    ]
