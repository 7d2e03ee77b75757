-- ===== src/Mcp.antt =====
-- internal/mcp: the server of the Model Context Protocol (server.go, jsonrpc.go) and its stdio
-- transport (stdio.go). A tool runs in a world `W` that it may change.
pub mod Replies
mod Tests
use webapp_wago.Base.{
  ℕ, suc, zero, ◌+◌, ◌*◌, leb, Bool, true, false, not, ◌&&◌, ◌||◌, List, [], ◌∷◌, is_empty, Option,
  none, some, Result, ok, err, if◌then◌else◌, value_or,
}
use webapp_wago.Base.Text.{Text, codes, text_eq, equal_fold}
use webapp_wago.Json.{Json, null, boolean, number, text, array, object, Fields, end, field, put}

-- The raw `id` is empty where the request has none; `params` is none where there are none or
-- they are no JSON.
pub record Request : Type 0 where
  pub id : Text
  pub method : Text
  pub params : Option Json

-- The error codes −32700, −32601 and −32602 of jsonrpc.go.
pub data Code : Type 0 where
  parse_error : Code
  method_not_found : Code
  invalid_params : Code

pub data Reply : Type 0 where
  server_info : Text → Text → Reply
  pong : Reply
  tool_list : List Text → Reply
  content : Text → Reply
  error_content : Text → Reply
  rpc_error : Code → Reply

pub record Response : Type 0 where
  pub id : Text
  pub reply : Reply

abbrev pub respond : Text → Reply → Response
respond id reply = record { id = id; reply = reply }

pub record Tool (W : Type 0) : Type 0 where
  pub name : Text
  pub handler : Fields → W → Result Text Text × W

pub record Server (W : Type 0) : Type 0 where
  pub name : Text
  pub version : Text
  pub tools : List (Tool W)
  pub index : Text → Option (Tool W)

-- `NewServer`: of two tools with one name the later one is in the index.
unfoldable pub indexed :
    {W : Type 0} → List (Tool W) → (Text → Option (Tool W)) → Text → Option (Tool W)
unfolding text_eq
indexed [] index = index
indexed (t ∷ ts) index = indexed ts (λ n. if text_eq t.name n then some t else index n)

unfoldable pub new_server : {W : Type 0} → Text → Text → List (Tool W) → Server W
unfolding indexed
new_server name version tools = record {
  name = name;
  version = version;
  tools = tools;
  index = indexed tools (λ n. none);
}

-- The parameters of `tools/call`; `arguments` is none for the nil map.
pub record Params : Type 0 where
  pub name : Text
  pub arguments : Option Fields

abbrev pub set_name : Json → Params → Option Params
set_name (text s) p = some (record { name = s; arguments = p.arguments })
set_name null p = some p
set_name _ p = none

-- Each entry of an object is stored in the map that is there.
unfoldable pub put_all : Fields → Fields → Fields
unfolding put
put_all end base = base
put_all (field k v m) base = put_all m (put k v base)

abbrev pub set_arguments : Json → Params → Option Params
set_arguments (object m) p =
    some (record { name = p.name; arguments = some (put_all m (value_or p.arguments end)) })
set_arguments null p = some (record { name = p.name; arguments = none })
set_arguments _ p = none

abbrev pub set_field : Text → Json → Params → Option Params
set_field k v p =
    if equal_fold k (codes "name")
    then set_name v p
    else if equal_fold k (codes "arguments")
    then set_arguments v p
    else some p

abbrev pub then_params : Option Params → (Params → Option Params) → Option Params
then_params none k = none
then_params (some p) k = k p

-- `json.Unmarshal` into the struct: keys in order, whatever their letters' case.
unfoldable pub read_fields : Fields → Params → Option Params
unfolding equal_fold codes put_all
read_fields end p = some p
read_fields (field k v m) p = then_params (set_field k v p) (read_fields m)

abbrev pub no_params : Params
no_params = record { name = []; arguments = none }

unfoldable pub read_params : Option Json → Option Params
unfolding read_fields
read_params (some (object m)) = read_fields m no_params
read_params (some null) = some no_params
read_params (some (boolean b)) = none
read_params (some (number s)) = none
read_params (some (text s)) = none
read_params (some (array v)) = none
read_params none = none

-- A line of the input: empty, no JSON of a request, or a request.
pub data Line : Type 0 where
  blank : Line
  garbage : Line
  request : Request → Line

abbrev pub fatal : Line → Bool
fatal (request req) = true
fatal _ = false

-- The limit given to `sc.Buffer`.
abbrev pub max_line : ℕ
max_line = 8 * 1024 * 1024

-- The responses that got out, whether a write failed, and the world at the end.
pub record Run (W : Type 0) : Type 0 where
  pub written : List Response
  pub failed : Bool
  pub world : W

module _ {W : Type 0} where
  abbrev pub tool_reply : Text → Result Text Text × W → Option Response × W
  tool_reply id (ok s, w) = (some (respond id (content s)), w)
  tool_reply id (err e, w) = (some (respond id (error_content e)), w)

  abbrev pub call_found : Text → Params → Option (Tool W) → W → Option Response × W
  call_found id p none w = (some (respond id (rpc_error invalid_params)), w)
  call_found id p (some t) w = tool_reply id (t.handler (value_or p.arguments end) w)

  abbrev pub call_read : Server W → Text → Option Params → W → Option Response × W
  call_read s id none w = (some (respond id (rpc_error invalid_params)), w)
  call_read s id (some p) w = call_found id p (s.index p.name) w

  unfoldable pub call_tool : Server W → Request → W → Option Response × W
  unfolding read_params
  call_tool s req w = call_read s req.id (read_params req.params) w

  abbrev pub names_of : List (Tool W) → List Text
  names_of [] = []
  names_of (t ∷ ts) = t.name ∷ names_of ts

  -- `Handle`.
  unfoldable pub handle : Server W → Request → W → Option Response × W
  unfolding text_eq codes call_tool
  handle s req w =
      if text_eq req.method (codes "initialize")
      then (some (respond req.id (server_info s.name s.version)), w)
      else if text_eq req.method (codes "notifications/initialized")
          || text_eq req.method (codes "initialized")
      then (none, w)
      else if text_eq req.method (codes "ping")
      then (some (respond req.id pong), w)
      else if text_eq req.method (codes "tools/list")
      then (some (respond req.id (tool_list (names_of s.tools))), w)
      else if text_eq req.method (codes "tools/call")
      then call_tool s req w
      else if is_empty req.id
      then (none, w)
      else (some (respond req.id (rpc_error method_not_found)), w)

  -- What a line is answered with.
  unfoldable pub answer : Server W → Line → W → Option Response × W
  unfolding handle
  answer s blank w = (none, w)
  answer s garbage w = (some (respond [] (rpc_error parse_error)), w)
  answer s (request req) w = handle s req w

  abbrev pub wrote : Response → Run W → Run W
  wrote r run = record { written = r ∷ run.written; failed = run.failed; world = run.world }

  -- After an answer, with `fails` for the writes to come; a failed write of a parse error is
  -- passed over, another one ends the loop.
  abbrev pub emit : Bool → (ℕ → Bool) → ℕ → Option Response × W → (ℕ → W → Run W) → Run W
  emit last fails n (none, w) k = k n w
  emit last fails n (some r, w) k =
      if fails n
      then if last then record { written = []; failed = true; world = w } else k (suc n) w
      else wrote r (k (suc n) w)

  abbrev pub on_size : Bool → W → Run W → Run W
  on_size true w run = record { written = []; failed = true; world = w }
  on_size false w run = run

  -- `ServeStdio` on the lines of the input with their sizes in bytes; `broken` is whether the input
  -- ends in an error. The scanner refuses a line that does not fit its buffer with the line's end.
  unfoldable pub serve_stdio : Server W → (ℕ → Bool) → Bool → List (ℕ × Line) → ℕ → W → Run W
  unfolding answer
  serve_stdio s fails broken [] n w = record { written = []; failed = broken; world = w }
  serve_stdio s fails broken ((size, l) ∷ ls) n w =
      on_size (leb max_line size) w
        (emit (fatal l) fails n (answer s l w) (serve_stdio s fails broken ls))
