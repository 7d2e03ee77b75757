-- ===== src/Producers/Sockets.antt =====
-- pkg/events/websocket/websocket_producer.go: the WebSocket clients, one for an instance and any
-- number for all instances. A connection is a number; the mutex makes each operation atomic.
use webapp_wago.Base.{
  ℕ, Bool, true, false, List, [], ◌∷◌, ◌++◌, is_empty, select, Option, none, some, ◌==◌,
  if◌then◌else◌,
}
use webapp_wago.Base.Text.{Text, text_eq, to_lower}
use webapp_wago.Producers.{Message}

pub record Hub : Type 0 where
  pub clients : Text → Option ℕ
  pub broadcast : List ℕ

abbrev pub new_hub : Hub
new_hub = record { clients = λ i. none; broadcast = [] }

unfoldable pub add_client : Text → ℕ → Hub → Hub
unfolding text_eq
add_client i conn h = record h { clients = λ j. if text_eq i j then some conn else h.clients j }

unfoldable pub remove_client : Text → Hub → Hub
unfolding text_eq
remove_client i h = record h { clients = λ j. if text_eq i j then none else h.clients j }

unfoldable pub add_broadcast_client : ℕ → Hub → Hub
add_broadcast_client conn h = record h { broadcast = h.broadcast ++ conn ∷ [] }

-- The first connection that is the same goes.
unfoldable pub without : ℕ → List ℕ → List ℕ
without conn [] = []
without conn (c ∷ cs) = let rest = without conn cs in if c == conn then cs else c ∷ rest

unfoldable pub remove_broadcast_client : ℕ → Hub → Hub
unfolding without
remove_broadcast_client conn h = record h { broadcast = without conn h.broadcast }

-- `ServeWs` on an upgraded connection, and what its goroutine does when the connection ends.
unfoldable pub serve : Text → ℕ → Hub → Hub
unfolding add_client add_broadcast_client
serve instance_id conn h =
    if is_empty instance_id then add_broadcast_client conn h else add_client instance_id conn h

unfoldable pub hang_up : Text → ℕ → Hub → Hub
unfolding remove_client remove_broadcast_client
hang_up instance_id conn h =
    if is_empty instance_id then remove_broadcast_client conn h else remove_client instance_id h

-- A frame written to a connection.
pub record Frame : Type 0 where
  pub conn : ℕ
  pub message : Message

abbrev pub frames : List ℕ → Message → List Frame
frames [] m = []
frames (c ∷ cs) m = record { conn = c; message = m } ∷ frames cs m

-- A write that fails for the client of the instance ends `Produce` with the error; one that fails
-- for another client is passed over.
abbrev pub to_all : (ℕ → Bool) → List ℕ → Message → List Frame × Bool
to_all works cs m = (frames (select works cs) m, true)

abbrev pub after_client : ℕ → Message → List Frame × Bool → List Frame × Bool
after_client c m (fs, fine) = (record { conn = c; message = m } ∷ fs, fine)

abbrev pub to_client : (ℕ → Bool) → Option ℕ → List ℕ → Message → List Frame × Bool
to_client works none cs m = to_all works cs m
to_client works (some c) cs m =
    if works c then after_client c m (to_all works cs m) else ([], false)

-- `Produce`: the frames written and whether there is no error; the second text is the instance.
unfoldable pub produce : (ℕ → Bool) → Text → Text → Text → Hub → List Frame × Bool
unfolding to_lower
produce works queue payload instance_id h =
    to_client works (h.clients instance_id) h.broadcast
      (record { queue = to_lower queue; payload = payload })
