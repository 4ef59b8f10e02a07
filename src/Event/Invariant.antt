-- ===== src/Event/Invariant.antt =====
-- What the threads of the server keep of the state that they share, whatever they do with it.
pub mod Servers
pub mod Rules
pub mod History
use bbserver.World.{World}
use bbserver.Conn.Table.{IsTable}
use bbserver.Clients.Find.{Below}
use bbserver.Servers.Count.{Rising}

-- Every client has its own address, which no later client gets; the table of connections has its
-- slots, and no descriptor has two of them; every server has its own address.
abbrev pub IsWorld : World → Type 0
IsWorld w = Below w.next_addr w.clients × IsTable w.conns × Rising 0 w.servers
