-- ===== src/Instances/Showing.antt =====
-- GetAll, Info, Pair and GetQr of pkg/instance/service/instance_service.go: what a client is shown.
use webapp_wago.Base.{List, [], ◌∷◌, map, All, Result, ok, err, ok-injective, ◌≡◌, refl, subst}
use webapp_wago.Instances.{Instance}
use webapp_wago.Instances.Store.{Gorm}
use webapp_wago.Instances.Sessions.{Setting, Whatsmeow, Sessions}
use webapp_wago.Instances.Service.{logged_in, shown, shown_all, get_all}

module _ {D E W : Type 0} (g : Gorm D E) (lib : Whatsmeow W) (set : Setting)
    (meanwhile : Sessions D W → Sessions D W) where
  -- No proxy is shown, which may hold a password, and the flag is that of the client.
  abbrev pub IsShown : Sessions D W → Instance → Type 0
  IsShown s i =
      (i.proxy ≡ []) × (i.connected ≡ logged_in g lib set meanwhile (s.clients i.id) s.world)

  map-IsShown :
      (s : Sessions D W) (is : List Instance)
      → All (IsShown s) (map (shown g lib set meanwhile s) is)
  map-IsShown s [] = tt
  map-IsShown s (i ∷ is) = ((refl, refl), map-IsShown s is)

  -- Each instance that GetAll lists comes without its proxy, and as connected exactly where its
  -- client is there and logged in, whatever the database says.
  pub get_all-IsShown :
      (s : Sessions D W) (is : List Instance)
      → get_all g lib set meanwhile s ≡ ok is
      → All (IsShown s) is
  unfolding get_all
  get_all-IsShown s is = of (g.find_by_client set.client_name s.db)
    where
      of :
          (o : Result E (List Instance))
          → shown_all g lib set meanwhile s o ≡ ok is
          → All (IsShown s) is
      of (err e) k = cc
      of (ok js) k = subst (All (IsShown s)) (ok-injective k) (map-IsShown s js)
