-- ===== src/Servers/Nodes.antt =====
-- list.cpp: the list of synchronization servers as start-up, shutdown and a reload use it.
use bbserver.Base.{
  ℕ, ◌==◌, Bool, Option, none, some, List, [], ◌∷◌, if◌then◌else◌, length, ℤ, pos, negsuc,
}
use bbserver.Types.{SyncServerCb}
use bbserver.World.{World}
use bbserver.Servers.{update_server}

-- `create_sync_server_list`
abbrev pub create_sync_server_list : World → World
create_sync_server_list w = record w { servers = [] }

-- `sync_server_list_clear`
unfoldable pub sync_server_list_clear : World → World
sync_server_list_clear w = record w { servers = [] }

-- `destroy_sync_server_list`
abbrev pub destroy_sync_server_list : World → World
destroy_sync_server_list w = sync_server_list_clear w

-- `sync_server_list_del` of the node at the address, with the value that it returns
pub remove_server : ℕ → List SyncServerCb → List SyncServerCb
remove_server a [] = []
remove_server a (p ∷ ps) = if p.addr == a then ps else p ∷ remove_server a ps

unfoldable pub sync_server_list_del : World → Option ℕ → World × ℤ
unfolding remove_server
sync_server_list_del w none = (w, negsuc 0)
sync_server_list_del w (some a) = (record w { servers = remove_server a w.servers }, pos 0)

abbrev pub sync_server_list_empty : World → Bool
sync_server_list_empty w = length w.servers == 0

abbrev pub sync_server_list_get_first : List SyncServerCb → Option ℕ
sync_server_list_get_first [] = none
sync_server_list_get_first (p ∷ ps) = some p.addr

-- of the node at the address
abbrev pub sync_server_list_get_next : ℕ → List SyncServerCb → Option ℕ
sync_server_list_get_next a [] = none
sync_server_list_get_next a (p ∷ ps) =
    let later = sync_server_list_get_next a ps in
    if p.addr == a then sync_server_list_get_first ps else later

unfoldable pub sync_server_list_set_fd : World → Option ℕ → ℤ → World × ℤ
unfolding update_server
sync_server_list_set_fd w none fd = (w, negsuc 0)
sync_server_list_set_fd w (some a) fd =
    (record w { servers = update_server a (λ p. record p { fd = fd }) w.servers }, pos 1)
