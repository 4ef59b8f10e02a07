-- ===== src/Tests/Sessions.antt =====
-- Requests of two users on a board of two messages.
use bbserver.Base.{◌≡◌, refl, List, [], ◌∷◌, arith, codes, ok}
use bbserver.Types.{ClientCb, sync_null}
use bbserver.World.{World}
use bbserver.Board.Abstract.{fresh_entry}
use bbserver.Msg.Client.Refinement.{Bulletin, Request, reads, writes, replaces, serve, Holds}
use bbserver.Msg.Client.Refinement.Sessions.{answers, serve_all, AreAllowed, answers-serve_all}
use bbserver.Tests.{os, client, world}

abbrev bulletin : Bulletin
bulletin = record {
  entries =
      fresh_entry (codes "1") (codes "ann/hi") ∷ fresh_entry (codes "2") (codes "bob/yo") ∷ [];
  last = 2;
}

abbrev quiet_world : World
quiet_world = world (client 2 sync_null ∷ client 1 sync_null ∷ []) []

-- a WRITE, a REPLACE that fits, and three READs, of which one finds nothing
abbrev requests : List (ClientCb × Request)
requests =
    (client 1 sync_null, writes (codes "new"))
    ∷ (client 2 sync_null, replaces (codes "2") (codes "x"))
    ∷ (client 1 sync_null, reads (codes "2"))
    ∷ (client 2 sync_null, reads (codes "3"))
    ∷ (client 2 sync_null, reads (codes "9"))
    ∷ []

served_answers :
    (serve_all bulletin requests).1
    ≡ codes "3.0 WROTE 3"
      ∷ codes "3.3 REPLACED 2"
      ∷ codes "2.0 MESSAGE 2/ann/x "
      ∷ codes "2.0 MESSAGE 3/ann/new"
      ∷ codes "2.1 UNKNOWN 9"
      ∷ []
unfolding serve_all serve bbserver.Text.to_string
served_answers = refl

quiet_world-Holds : Holds bulletin quiet_world
quiet_world-Holds = record {
  number = refl;
  small = omega arith;
  alone = refl;
  content = refl;
  readable = refl;
  writable = refl;
  messages = (
    record { slash = omega arith; number = omega arith; text = omega arith; fits = omega arith },
    (
      record { slash = omega arith; number = omega arith; text = omega arith; fits = omega arith },
      tt,
    ),
  );
}

requests-AreAllowed : AreAllowed bulletin requests
unfolding AreAllowed serve bbserver.Text.to_string
requests-AreAllowed = omega arith

answers-serve_all_example :
    (v : World) × (answers os quiet_world requests ≡ ok (v, (serve_all bulletin requests).1))
    × Holds (serve_all bulletin requests).0 v
answers-serve_all_example =
    answers-serve_all os quiet_world bulletin requests quiet_world-Holds requests-AreAllowed
