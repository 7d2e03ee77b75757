-- ===== src/Mcp/Replies.antt =====
-- What the server of internal/mcp answers, to one request and over a whole input.
use webapp_wago.Base.{
  ℕ, suc, Any, leb, ◌||◌, Bool, true, false, List, [], ◌∷◌, ◌++◌, Option, none, some, Result, ok,
  err, if◌then◌else◌, value_or, ◌≡◌, ◌⊎◌, refl, sym, ap, ◌∙◌, All,
}
use webapp_wago.Base.Text.{Text, codes, text_eq, text_eq_refl}
use webapp_wago.Json.{end}
use webapp_wago.Mcp.{
  Request, Reply, rpc_error, server_info, pong, tool_list, names_of, content, error_content,
  method_not_found, Response, respond, Tool, Server, Params, read_params, call_tool, call_read,
  call_found, tool_reply, handle, Line, answer, emit, fatal, Run, on_size, max_line, serve_stdio,
  new_server, indexed,
}

abbrev pub prepend : Option Response → List Response → List Response
prepend none rs = rs
prepend (some r) rs = r ∷ rs

-- The lines before the first that is too long.
abbrev pub short_lines : List (ℕ × Line) → List Line
short_lines [] = []
short_lines ((size, l) ∷ ls) =
    let rest = short_lines ls in if leb max_line size then [] else l ∷ rest

abbrev pub has_long : List (ℕ × Line) → Bool
has_long [] = false
has_long ((size, l) ∷ ls) = let rest = has_long ls in leb max_line size || rest

module _ {W : Type 0} where
  -- The reply, if there is one, is under the identity of the request.
  Echoes : Text → Option Response × W → Type 0
  Echoes id (none, w) = Unit
  Echoes id (some r, w) = r.id ≡ id

  call-Echoes : (s : Server W) (req : Request) (w : W) → Echoes req.id (call_tool s req w)
  unfolding call_tool Echoes
  call-Echoes s req w = of (read_params req.params)
    where
      replied : (r : Result Text Text × W) → Echoes req.id (tool_reply req.id r)
      replied (ok t, w') = refl
      replied (err e, w') = refl

      found : (p : Params) (t : Option (Tool W)) → Echoes req.id (call_found req.id p t w)
      found p none = refl
      found p (some t) = replied (t.handler (value_or p.arguments end) w)

      of : (p : Option Params) → Echoes req.id (call_read s req.id p w)
      of none = refl
      of (some p) = found p (s.index p.name)

  pick :
      (P : Option Response × W → Type 0) (b : Bool) (x y : Option Response × W)
      → P x
      → P y
      → P (if b then x else y)
  pick P true x y p q = p
  pick P false x y p q = q

  silent-Echoes : (id : Text) (w : W) → Echoes id (none, w)
  unfolding Echoes
  silent-Echoes id w = tt

  respond-Echoes : (id : Text) (reply : Reply) (w : W) → Echoes id (some (respond id reply), w)
  unfolding Echoes
  respond-Echoes id reply w = refl

  handle-Echoes : (s : Server W) (req : Request) (w : W) → Echoes req.id (handle s req w)
  unfolding handle
  handle-Echoes s req w =
      pick (Echoes req.id) _ _ _ (respond-Echoes req.id (server_info s.name s.version) w) (
        pick (Echoes req.id) _ _ _ (silent-Echoes req.id w) (
          pick (Echoes req.id) _ _ _ (respond-Echoes req.id pong w) (
            pick (Echoes req.id) _ _ _ (respond-Echoes req.id (tool_list (names_of s.tools)) w) (
              pick (Echoes req.id) _ _ _ (call-Echoes s req w) (
                pick (Echoes req.id) _ _ _ (silent-Echoes req.id w)
                  (respond-Echoes req.id (rpc_error method_not_found) w))))))

  -- Whatever the method and its parameters, a response carries the identity of its request.
  pub handle-id :
      (s : Server W) (req : Request) (w : W) (r : Response)
      → (handle s req w).0 ≡ some r
      → r.id ≡ req.id
  unfolding Echoes
  handle-id s req w r h = of (handle s req w) (handle-Echoes s req w) h
    where
      of : (x : Option Response × W) → Echoes req.id x → x.0 ≡ some r → r.id ≡ req.id
      of (none, w') e k = cc
      of (some r', w') e k = (let k' : r' ≡ r = cc in sym (ap (λ q. q.id) k') ∙ e)

  -- What a tool gave, as content, and an error of it as content marked as an error.
  abbrev pub IsContent : Text → Result Text Text × W → Option Response × W → Type 0
  IsContent id x out =
      ((o : Text) × (x.0 ≡ ok o) × (out ≡ (some (respond id (content o)), x.1)))
      ⊎ ((e : Text) × (x.0 ≡ err e) × (out ≡ (some (respond id (error_content e)), x.1)))

  module _ (name version : Text) (tools : List (Tool W)) where
    -- The request calls a tool that the server was made with, which runs once, on its arguments or
    -- on no arguments.
    abbrev pub Ran : Request → W → Option Response × W → Type 0
    Ran req w out =
        (p : Params) × (t : Tool W) × (req.method ≡ codes "tools/call")
        × (read_params req.params ≡ some p)
        × (t.name ≡ p.name)
        × Any (λ u. u ≡ t) tools
        × IsContent req.id (t.handler (value_or p.arguments end) w) out

    pub IsTouched : Request → W → Option Response × W → Type 0
    IsTouched req w out = (out.1 ≡ w) ⊎ Ran req w out

  -- The answers to the lines, each in the world that the one before left.
  unfoldable pub answers : Server W → List Line → W → List Response
  unfolding answer
  answers s [] w = []
  answers s (l ∷ ls) w = prepend (answer s l w).0 (answers s ls (answer s l w).1)

  -- Where the output takes what is written, the loop answers in order every line before the first
  -- of 8 MiB or more, also those after a line that cannot be read or a tool that fails, and writes
  -- nothing else; it returns an error just where there is such a line or the input ends in an error.
  pub serve_stdio-answers :
      (s : Server W) (fails : ℕ → Bool) (broken : Bool) (ls : List (ℕ × Line)) (n : ℕ) (w : W)
      → ((m : ℕ) → fails m ≡ false)
      → ((serve_stdio s fails broken ls n w).written ≡ answers s (short_lines ls) w)
        × ((serve_stdio s fails broken ls n w).failed ≡ (has_long ls || broken))
  unfolding serve_stdio answers
  serve_stdio-answers s fails broken [] n w h = (refl, refl)
  serve_stdio-answers s fails broken ((size, l) ∷ ls) n w h =
      sized (leb max_line size)
        (of (answer s l w) (λ m v. serve_stdio-answers s fails broken ls m v h))
    where
      of :
          (x : Option Response × W)
          → ((m : ℕ) (v : W)
              → ((serve_stdio s fails broken ls m v).written ≡ answers s (short_lines ls) v)
                × ((serve_stdio s fails broken ls m v).failed ≡ (has_long ls || broken)))
          → ((emit (fatal l) fails n x (serve_stdio s fails broken ls)).written
              ≡ prepend x.0 (answers s (short_lines ls) x.1))
            × ((emit (fatal l) fails n x (serve_stdio s fails broken ls)).failed
                ≡ (has_long ls || broken))
      of (none, v) k = k n v
      of (some r, v) k = rw (h n) (ap (λ rs. r ∷ rs) (k (suc n) v).0, (k (suc n) v).1)

      sized :
          (b : Bool)
          → (let x : Option Response × W = answer s l w in
              ((emit (fatal l) fails n x (serve_stdio s fails broken ls)).written
                ≡ prepend x.0 (answers s (short_lines ls) x.1))
              × ((emit (fatal l) fails n x (serve_stdio s fails broken ls)).failed
                  ≡ (has_long ls || broken)))
          → let run : Run W =
              on_size b w (emit (fatal l) fails n (answer s l w) (serve_stdio s fails broken ls)) in
            (run.written ≡ answers s (if b then [] else l ∷ short_lines ls) w)
            × (run.failed ≡ ((b || has_long ls) || broken))
      sized true k = (refl, refl)
      sized false k = k

  -- The index of a new server gives a name the last tool that has it.
  pub new_server-index :
      (name version : Text) (before after : List (Tool W)) (t : Tool W)
      → All (λ u. text_eq u.name t.name ≡ false) after
      → (new_server name version (before ++ t ∷ after)).index t.name ≡ some t
  unfolding new_server indexed
  new_server-index name version before after t h = first before (λ n. none)
    where
      rest :
          (ts : List (Tool W)) (index : Text → Option (Tool W))
          → All (λ u. text_eq u.name t.name ≡ false) ts
          → indexed ts index t.name ≡ index t.name
      rest [] index k = refl
      rest (u ∷ ts) index (ku, k) =
          rest ts (λ n. if text_eq u.name n then some u else index n) k ∙ (rw ku refl)

      first :
          (ts : List (Tool W)) (index : Text → Option (Tool W))
          → indexed (ts ++ t ∷ after) index t.name ≡ some t
      first [] index =
          rest after (λ n. if text_eq t.name n then some t else index n) h
          ∙ (rw (text_eq_refl t.name) refl)
      first (u ∷ ts) index = first ts (λ n. if text_eq u.name n then some u else index n)
