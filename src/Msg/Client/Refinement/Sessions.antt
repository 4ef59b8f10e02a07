-- ===== src/Msg/Client/Refinement/Sessions.antt =====
-- Requests of any clients, one after the other.
use bbserver.Base.{
  ◌^◌, ◌<◌, ◌≡◌, refl, ◌∙◌, List, [], ◌∷◌, ◌++◌, arith, length, Bytes, codes, Result, ok, ◌>>=◌,
}
use bbserver.Types.{ClientCb}
use bbserver.World.{World, Os}
use bbserver.Msg.Client.{process_client_msg}
use bbserver.Msg.Client.Parse.{process_client_msg-line}
use bbserver.Msg.Client.Refinement.{
  Bulletin, Request, reads, writes, replaces, serve, request_line, IsAllowed, Holds, Serves,
  read-Serves, write-Serves, replace-Serves,
}

-- The handler's answers to the lines of the requests.
unfoldable pub answers : Os → World → List (ClientCb × Request) → Result (World × List Bytes)
answers os w [] = ok (w, [])
answers os w ((c, r) ∷ rs) = do
  p ← process_client_msg os w c (request_line r)
  q ← answers os p.0 rs
  ok (q.0, p.1 ∷ q.1)

-- The answers of the board, and the board after them.
unfoldable pub serve_all : Bulletin → List (ClientCb × Request) → Bulletin × List Bytes
unfolding serve
serve_all b [] = (b, [])
serve_all b ((c, r) ∷ rs) = let s = serve b c r in let t = serve_all s.0 rs in (t.0, s.1 ∷ t.1)

-- Every request is allowed when its turn comes, and its line has a size.
unfoldable pub AreAllowed : Bulletin → List (ClientCb × Request) → Type 0
unfolding serve
AreAllowed b [] = Unit
AreAllowed b ((c, r) ∷ rs) =
    IsAllowed b c r × (length (request_line r) < 2 ^ 64) × AreAllowed (serve b c r).0 rs

process_client_msg-Serves :
    (os : Os) (w : World) (c : ClientCb) (b : Bulletin) (r : Request)
    → Holds b w
    → IsAllowed b c r
    → length (request_line r) < 2 ^ 64
    → Serves (process_client_msg os w c (request_line r)) (serve b c r)
process_client_msg-Serves os w c b (reads number) h a l =
    let (v, e, k) = read-Serves os w c b h number a in
    (v, process_client_msg-line (codes "READ") number os w c (omega arith) l ∙ e, k)
process_client_msg-Serves os w c b (writes body) h a l =
    let (v, e, k) = write-Serves os w c b h body a in
    (v, process_client_msg-line (codes "WRITE") body os w c (omega arith) l ∙ e, k)
process_client_msg-Serves os w c b (replaces number body) h a l =
    let (v, e, k) = replace-Serves os w c b h number body a in
    (
      v,
      process_client_msg-line (codes "REPLACE") (number ++ b'/' ∷ body) os w c (omega arith) l ∙ e,
      k,
    )

-- Without peers the server is a list of messages. A world holds a board when its file, which can be
-- read and written, has a line for each message, and its counter the number given out last. The
-- lines READ, WRITE and REPLACE of any clients, in any number, are all answered as the board
-- answers them, and the world then holds the board after them. What READ asks for, and what WRITE
-- and REPLACE put in, is at least one byte; a message and the name of its client hold no line end;
-- the number of a REPLACE holds no slash; and a message that takes the place of another takes no
-- more room than the first one of that number did.
pub answers-serve_all :
    (os : Os) (w : World) (b : Bulletin) (rs : List (ClientCb × Request))
    → Holds b w
    → AreAllowed b rs
    → (v : World) × (answers os w rs ≡ ok (v, (serve_all b rs).1)) × Holds (serve_all b rs).0 v
unfolding answers serve_all AreAllowed
answers-serve_all os w b [] h a = (w, refl, h)
answers-serve_all os w b ((c, r) ∷ rs) h (now, size, later) =
    let (u, e, k) = process_client_msg-Serves os w c b r h now size in
    let (v, f, l) = answers-serve_all os u (serve b c r).0 rs k later in (v, rw e (rw f refl), l)
