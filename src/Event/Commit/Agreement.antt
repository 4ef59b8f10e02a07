-- ===== src/Event/Commit/Agreement.antt =====
-- The file after a WRITE, as the two sides of a commit state it.
use bbserver.Base.{◌≡◌, refl, some, ◌++◌, Bytes}
use bbserver.Board.{BbFile, open_app, endl, save_msg_write}

pub saved_at :
    (f : BbFile) (s m : Bytes)
    → open_app f ≡ some s
    → record f { content = some (s ++ (m ++ endl)) } ≡ (save_msg_write f m).0
unfolding save_msg_write
saved_at f s m e = rw e refl
