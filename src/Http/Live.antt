-- ===== src/Http/Live.antt =====
-- ws.go: a request becomes a live connection.
use masonic_core.Prelude.{Option, some, none}
use masonic_core.Prelude.{ℕ, ◌+◌, List, [], ◌∷◌, leb, if◌then◌else◌}
use masonic_core.Text.{text}
use masonic_core.Config.{is_empty}
use masonic_core.Ws.Steps.{Conn, connect}
use masonic_core.Http.Gate.{identify}
use masonic_core.Http.{Server, Action, Handler, Response, no_body}
use masonic_core.Http.Answers.{json, refusal, stop_if}
use masonic_core.Http.Input.{value_of}

-- Clients are pointers, so a new one is none of those before.
unfoldable pub fresh_id : List Conn → ℕ
fresh_id [] = 1
fresh_id (c ∷ cs) = let rest = fresh_id cs in if leb rest c.id then c.id + 1 else rest

abbrev pub switching : Response
switching = json 101 no_body

-- upgrader.Upgrade, which answers by itself where it fails.
abbrev pub upgraded : Option Response → Action → Action
upgraded none good s = good s
upgraded (some refused) good s = (refused, s)

-- NewClient registers the connection; its pumps then run until the socket closes.
unfoldable pub open_client : ℕ → Action
unfolding fresh_id
open_client user_id s =
    (switching, record s { system = connect (fresh_id s.system.conns) user_id s.system })

unfoldable pub serve : Server → Handler
unfolding open_client
serve srv r =
    let raw = value_of (text "access_token") r.query in
    stop_if (is_empty raw)
      (refusal 401 (text "missing_token") (text "access_token query parameter is required"))
      (identify srv raw (text "Invalid access token")
        λ id claims. upgraded (srv.upgrade r) (open_client id))
