-- ===== src/Mcp/Tests.antt =====
-- The server of internal/mcp with a tool that counts its calls, and the theorems about it.
use webapp_wago.Base.{ℕ, suc, true, false, ◌||◌, List, [], ◌∷◌, none, some, ok, err, ◌≡◌, refl}
use webapp_wago.Base.Text.{Text, codes, text_eq, equal_fold}
use webapp_wago.Json.{null, put, text, object, end, field}
use webapp_wago.Mcp.{
  Request, rpc_error, content, error_content, parse_error, respond, Tool, Server, read_params,
  handle, Line, blank, garbage, request, answer, serve_stdio, new_server, call_tool, read_fields,
  put_all, indexed,
}
use webapp_wago.Mcp.Replies.{short_lines, has_long, serve_stdio-answers, answers}

server_steps : Unit {0}
unfolding text_eq codes equal_fold handle serve_stdio new_server read_params answers answer
    call_tool read_fields put_all put indexed
server_steps = tt

abbrev counter : Tool ℕ
counter = record { name = codes "count"; handler = λ m n. (ok (codes "counted"), suc n) }

abbrev refuser : Tool ℕ
refuser = record { name = codes "refuse"; handler = λ m n. (err (codes "no"), n) }

abbrev server : Server ℕ
server = new_server (codes "wago") (codes "1") (refuser ∷ counter ∷ refuser ∷ [])

abbrev calling : Text → Request
calling tool = record {
  id = codes "7";
  method = codes "tools/call";
  params = some (object (field (codes "name") (text tool) end));
}

abbrev lines : List (ℕ × Line)
lines =
    (90, request (calling (codes "count")))
    ∷ (3, garbage)
    ∷ (0, blank)
    ∷ (20, request (record { id = []; method = codes "other"; params = none }))
    ∷ (90, request (calling (codes "refuse")))
    ∷ []

three_answers :
    (serve_stdio server (λ n. false) false lines 0 0).written
    ≡ respond (codes "7") (content (codes "counted"))
      ∷ respond [] (rpc_error parse_error)
      ∷ respond (codes "7") (error_content (codes "no"))
      ∷ []
unfolding server_steps
three_answers = refl

-- The second `arguments` are added to the first.
both_arguments :
    read_params (
      some (
        object (
          field
            (codes "arguments")
            (object (field (codes "a") null end))
            (field (codes "arguments") (object (field (codes "b") null end)) end))))
    ≡ some (record {
      name = [];
      arguments = some (field (codes "a") null (field (codes "b") null end));
    })
unfolding server_steps
both_arguments = refl

-- A line that is too long ends the loop.
long_line : (serve_stdio server (λ n. false) false ((8388608, garbage) ∷ lines) 0 0).failed ≡ true
unfolding server_steps
long_line = refl

serve_stdio-answers_example :
    ((serve_stdio server (λ n. false) false lines 0 0).written
      ≡ answers server (short_lines lines) 0)
    × ((serve_stdio server (λ n. false) false lines 0 0).failed ≡ (has_long lines || false))
serve_stdio-answers_example = serve_stdio-answers server (λ n. false) false lines 0 0 (λ m. refl)
