-- ===== src/Auth/Tests.antt =====
-- The middleware of pkg/middleware/auth_middleware.go at concrete keys.
use webapp_wago.Base.{Bool, [], ◌≡◌, refl}
use webapp_wago.Base.Text.{codes, text_eq}
use webapp_wago.Auth.{not_authorized, auth_admin, admin}

keys : Unit {0}
unfolding text_eq codes auth_admin
keys = tt

right_key : auth_admin {I = Bool} (codes "k") (codes "k") ≡ admin
unfolding keys
right_key = refl

no_key : auth_admin {I = Bool} [] [] ≡ not_authorized
unfolding keys
no_key = refl
