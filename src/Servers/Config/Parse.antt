-- ===== src/Servers/Config/Parse.antt =====
-- The peers of a well-formed configuration are all found.
use bbserver.Base.{
  ℕ, zero, suc, ◌+◌, ◌-◌, ◌≤◌, ◌<◌, ◌≡◌, refl, sym, ap, ◌∙◌, false, Option, none, some, List, [],
  ◌∷◌, ◌++◌, map, append-nil, append_assoc, arith, ◌==◌, if◌then◌else◌, length, take, drop,
  length-append, take-append, drop-append, All, Bytes, Lacks, Result, ok, ◌>>=◌, ℤ, pos, negsuc,
  int_max,
}
use bbserver.Text.{find, to_string}
use bbserver.Text.Search.{find-append, find-Lacks}
use bbserver.Text.Decimal.{atoi-to_string, to_string-Lacks}
use bbserver.Types.{SyncServerCb, SyncState}
use bbserver.World.{World}
use bbserver.Servers.{sync_server_list_add}
use bbserver.Servers.Config.{peer_loop, peer_node, add_peers, init_sync_server_list}

-- One peer, as the configuration has it.
abbrev pub peer_text : Bytes × ℕ → Bytes
peer_text p = p.0 ++ b':' ∷ to_string (pos p.1)

-- Peers with a blank between two.
abbrev pub peers_text : Bytes × ℕ → List (Bytes × ℕ) → Bytes
peers_text p [] = peer_text p
peers_text p (q ∷ ps) = peer_text p ++ b' ' ∷ peers_text q ps

abbrev pub IsPeer : Bytes × ℕ → Type 0
IsPeer p = Lacks b':' p.0 × (p.1 ≤ int_max)

abbrev written_pair : Bytes × ℕ → Bytes × Bytes
written_pair p = (p.0, to_string (pos p.1))

drop_behind : (xs : Bytes) (y : ℕ) (ys : Bytes) → drop (length xs + 1) (xs ++ y ∷ ys) ≡ ys
drop_behind [] y ys = refl
drop_behind (x ∷ xs) y ys = ground (arith, drop_behind xs y ys)

abbrev pair_text : Bytes → Bytes → Bytes
pair_text h t = h ++ b':' ∷ t

peer_loop-last :
    (n : ℕ) (h t : Bytes)
    → Lacks b':' h
    → Lacks b' ' t
    → peer_loop (suc n) (pair_text h t) ≡ ok ((h, t) ∷ [])
unfolding peer_loop
peer_loop-last n h t l k =
    let blank : find b' ' (b':' ∷ t) ≡ none = find-Lacks b' ' (b':' ∷ t) (omega arith, k) in
    rw (find-append b':' h t l, peer_loop)
      (rw (drop-append h (b':' ∷ t), peer_loop)
        (rw (blank, peer_loop) (rw (take-append h (b':' ∷ t), drop_behind h b':' t) refl)))

peer_loop-next :
    (n : ℕ) (h t s : Bytes)
    → Lacks b':' h
    → Lacks b' ' t
    → peer_loop (suc n) (h ++ b':' ∷ (t ++ b' ' ∷ s))
      ≡ (do rest ← peer_loop n s; ok ((h, t) ∷ rest))
unfolding peer_loop
peer_loop-next n h t s l k =
    let more : Bytes = t ++ b' ' ∷ s in
    let blank : find b' ' (b':' ∷ more) ≡ some (suc (length t)) =
      find-append b' ' (b':' ∷ t) s (omega arith, k) in
    let port : take (suc (length t) - 1) more ≡ t =
      ap (λ m. take m more) (let e : suc (length t) - 1 ≡ length t = omega arith in e)
      ∙ take-append t (b' ' ∷ s) in
    let rest : drop (length h + suc (length t) + 1) (h ++ b':' ∷ more) ≡ s =
      rw (append_assoc h (b':' ∷ t) (b' ' ∷ s)) at (
        ap (λ m. drop m (pair_text h t ++ b' ' ∷ s))
          (let e : length h + suc (length t) + 1 ≡ length (pair_text h t) + 1 =
              omega (arith, length-append h (b':' ∷ t)) in
            e)
        ∙ drop_behind (pair_text h t) b' ' s) in
    rw (find-append b':' h more l, peer_loop)
      (rw (drop-append h (b':' ∷ more), peer_loop)
        (rw (blank, peer_loop)
          (rw (take-append h (b':' ∷ more), drop_behind h b':' more) (rw port (rw rest refl)))))

to_string-blank : (d : ℕ) → Lacks b' ' (to_string (pos d))
to_string-blank d = to_string-Lacks b' ' d (omega arith)

peer_loop-peers :
    (n : ℕ) (p : Bytes × ℕ) (ps : List (Bytes × ℕ))
    → All IsPeer (p ∷ ps)
    → length ps < n
    → peer_loop n (peers_text p ps) ≡ ok (map written_pair (p ∷ ps))
peer_loop-peers zero p ps h lt = absurd (omega (arith, lt))
peer_loop-peers (suc n) p [] h lt =
    peer_loop-last n p.0 (to_string (pos p.1)) h.0.0 (to_string-blank p.1)
peer_loop-peers (suc n) p (q ∷ ps) h lt =
    ap (peer_loop (suc n)) (append_assoc p.0 (b':' ∷ to_string (pos p.1)) (b' ' ∷ peers_text q ps))
    ∙ peer_loop-next n p.0 (to_string (pos p.1)) (peers_text q ps) h.0.0 (to_string-blank p.1)
    ∙ rw (peer_loop-peers n q ps h.1 (omega (arith, lt))) refl

length-peers_text : (p : Bytes × ℕ) (ps : List (Bytes × ℕ)) → length ps < length (peers_text p ps)
length-peers_text p [] = omega (arith, length-append p.0 (b':' ∷ to_string (pos p.1)))
length-peers_text p (q ∷ ps) =
    omega (arith, length-peers_text q ps, length-append (peer_text p) (b' ' ∷ peers_text q ps))

-- The nodes of the peers, in their order, at the next addresses.
abbrev pub peer_nodes :
    (Bytes → Option Bytes) → SyncState → ℕ → List (Bytes × ℕ) → List SyncServerCb
peer_nodes resolve unset a [] = []
peer_nodes resolve unset a (p ∷ ps) =
    peer_node resolve unset a p.0 p.1 ∷ peer_nodes resolve unset (a + 1) ps

add_peers-pairs :
    (resolve : Bytes → Option Bytes) (unset : SyncState) (w : World) (ps : List (Bytes × ℕ))
    → All IsPeer ps
    → (v : World) × (add_peers resolve unset w (map written_pair ps) ≡ ok v)
      × (v.servers ≡ w.servers ++ peer_nodes resolve unset w.next_addr ps)
unfolding add_peers sync_server_list_add
add_peers-pairs resolve unset w [] h = (w, refl, sym (append-nil w.servers))
add_peers-pairs resolve unset w (p ∷ ps) h =
    let node = peer_node resolve unset w.next_addr p.0 p.1 in
    let (v, e, f) =
      add_peers-pairs resolve unset
        (record w { next_addr = w.next_addr + 1; servers = w.servers ++ node ∷ [] }) ps h.1 in
    (
      v,
      rw (atoi-to_string p.1 h.0.1, add_peers) e,
      f ∙ append_assoc w.servers (node ∷ []) (peer_nodes resolve unset (w.next_addr + 1) ps),
    )

-- From peers that the configuration lists as name:port, with a blank between two,
-- `init_sync_server_list` makes one node for each, in their order, disconnected, with the port and
-- the address that the name is resolved to, or the name itself. No name has a colon, and the ports
-- are ints; there is at least one peer.
pub init_sync_server_list-peers :
    (resolve : Bytes → Option Bytes) (unset : SyncState) (w : World) (p : Bytes × ℕ)
    (ps : List (Bytes × ℕ))
    → w.config.peers ≡ peers_text p ps
    → All IsPeer (p ∷ ps)
    → (v : World) × (init_sync_server_list resolve unset w ≡ ok (v, pos 0))
      × (v.servers ≡ peer_nodes resolve unset w.next_addr (p ∷ ps))
unfolding init_sync_server_list
init_sync_server_list-peers resolve unset w p ps e h =
    let (v, f, g) = add_peers-pairs resolve unset (record w { servers = [] }) (p ∷ ps) h in
    let long = length-peers_text p ps in
    let some_peer : (length (peers_text p ps) == 0) ≡ false = ground (arith, long) in
    let found = peer_loop-peers (length (peers_text p ps) + 1) p ps h (omega (arith, long)) in
    let body : Bytes → Result (World × ℤ) = λ s. if length s == 0 then ok (w, negsuc 0) else (do
      qs ← peer_loop (length s + 1) s
      u ← add_peers resolve unset (record w { servers = [] }) qs
      ok (u, pos 0)) in
    let peers : body (peers_text p ps) ≡ ok (v, pos 0) = rw some_peer (rw found (rw f refl)) in
    (v, ap body e ∙ peers, g)
