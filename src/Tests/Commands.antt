-- ===== src/Tests/Commands.antt =====
-- Commands of users at concrete values.
use bbserver.Base.{◌≡◌, refl, inr, [], ◌∷◌, ◌++◌, arith, codes, ok, pos}
use bbserver.Text.{to_string}
use bbserver.Types.{sync_null}
use bbserver.World.{World}
use bbserver.Msg.Client.{record_of, process_client_msg}
use bbserver.Msg.Client.Parse.{command_line}
use bbserver.Msg.Client.RoundTrip.{written, process_client_msg-write_read}
use bbserver.Tests.{os, client, world, one_message, two_message}

abbrev fresh : World
fresh = world [] []

process_client_msg-write_read_example :
    (process_client_msg os fresh (client 1 sync_null) (command_line (codes "WRITE") (codes "new"))
      ≡ ok (
        written fresh (client 1 sync_null) 3 (one_message ∷ two_message ∷ []) (codes "new"),
        codes "3.0 WROTE " ++ to_string (pos 3),
      ))
    × (process_client_msg os
          (written fresh (client 1 sync_null) 3 (one_message ∷ two_message ∷ []) (codes "new"))
          (client 2 sync_null)
          (command_line (codes "READ") (to_string (pos 3)))
        ≡ ok (
          written fresh (client 1 sync_null) 3 (one_message ∷ two_message ∷ []) (codes "new"),
          codes "2.0 MESSAGE " ++ record_of (to_string (pos 3)) (client 1 sync_null) (codes "new"),
        ))
unfolding to_string
process_client_msg-write_read_example =
    process_client_msg-write_read os fresh (client 1 sync_null) (client 2 sync_null) 2
      (one_message ∷ two_message ∷ []) b'n' (codes "ew") refl (omega arith) refl refl refl refl
      (omega arith, (omega arith, tt)) (inr (1, refl, refl), (inr (1, refl, refl), tt))
      (omega arith) (omega arith) (omega arith)
