-- ===== src/Event/Replicas.antt =====
-- A peer that is sent what the master sends comes to the master's file.
use bbserver.Base.{
  ℕ, ◌-◌, ◌<◌, ◌≡◌, refl, sym, ap, ◌∙◌, ◌≢◌, inl, inr, Bool, true, false, some, List, [], ◌∷◌, ◌++◌,
  arith, ==_refl, Bool-cases, length, first_of_list, length-append, Bytes, codes, Lacks,
  Lacks-append, Result, ok, ◌>>=◌, deref, ℤ, pos, int_max, eq_ℤ,
}
use bbserver.Text.{to_string, before_slash}
use bbserver.Text.Decimal.{to_string-Lacks}
use bbserver.Text.Search.{substr_behind, before_slash-append}
use bbserver.Types.{
  ClientCb, ClientCmdType, cmd_unset, client_cmd_write, client_cmd_replace, SyncState, sync_idle,
  sync_s_precommit_received, sync_s_precommit_ack, sync_s_commited,
}
use bbserver.World.{World, Os}
use bbserver.Board.{open_app}
use bbserver.Clients.{update, client_list_find, sync_set_slave_state}
use bbserver.Servers.{commit_text, end_text}
use bbserver.Msg.Strip.{strip_line-append}
use bbserver.Msg.Slave.{Reply, precommit, set_slave, turned_away, slave_msg, process_sync_slave_msg}
use bbserver.Msg.Slave.Commit.{
  numbered, process_sync_slave_msg-commit_write, process_sync_slave_msg-save_msg_replace,
}
use bbserver.Event.Commit.Agreement.{saved_at}
use bbserver.Event.Commit.Save.{file_after}
use bbserver.Event.Transaction.{transact, transact-IsDone, phase_calls, IsReady}
use bbserver.Event.Transaction.Steps.{IsEveryPeer}
use bbserver.Event.Transaction.Handled.{IsDone}

-- What a slave does on the messages that come over the connection of its master, one after the
-- other.
unfoldable pub follow : World → ℤ → List Bytes → Result World
follow w fd [] = ok w
follow w fd (m ∷ ms) = do
  c ← deref (client_list_find w fd)
  r ← process_sync_slave_msg w c m
  follow r.0 fd ms

abbrev in_state : SyncState → ClientCb → ClientCb
in_state s c = record c { slave_state = s }

find-update :
    (s : SyncState) (fd : ℤ) (cs : List ClientCb) (c : ClientCb)
    → first_of_list (λ (d : ClientCb). eq_ℤ d.fd fd) cs ≡ some c
    → first_of_list (λ (d : ClientCb). eq_ℤ d.fd fd) (update c.addr (in_state s) cs)
      ≡ some (in_state s c)
unfolding update
find-update s fd [] c e = cc
find-update s fd (d ∷ cs) c e = elim (Bool-cases (eq_ℤ d.fd fd)) [
  | inl t ↦
      let same : d ≡ c = ground arith in
      let t' : eq_ℤ c.fd fd ≡ true = ap (λ (x : ClientCb). eq_ℤ x.fd fd) (sym same) ∙ t in
      rw (same, ==_refl c.addr, t') refl
  | inr n ↦ ground (arith, find-update s fd cs c)
]

client_list_find-set_slave :
    (w : World) (s : SyncState) (fd : ℤ) (c : ClientCb)
    → client_list_find w fd ≡ some c
    → client_list_find (set_slave w c s) fd ≡ some (in_state s c)
unfolding client_list_find sync_set_slave_state
client_list_find-set_slave w s fd c e = find-update s fd w.clients c e

process_sync_slave_msg-precommit :
    (w : World) (c : ClientCb)
    → process_sync_slave_msg w c (codes "PRECOMMIT\n") ≡ ok (precommit w c)
unfolding process_sync_slave_msg slave_msg bbserver.Msg.Strip.strip_line
process_sync_slave_msg-precommit w c = refl

process_sync_slave_msg-end :
    (w : World) (c : ClientCb) (success : Bool) (number : Bytes)
    → Lacks b'\r' number
    → process_sync_slave_msg w c (end_text success number) ≡ ok (set_slave w c sync_idle, [], pos 0)
unfolding process_sync_slave_msg slave_msg
process_sync_slave_msg-end w c true number l =
    rw
      (
        strip_line-append b'E' (codes "ND SUCCESS " ++ number)
            (omega arith, Lacks-append b'\r' (codes "ND SUCCESS ") number (omega arith) l),
        substr_behind (codes "END SUCCESS ") number (length (codes "END SUCCESS " ++ number) - 11)
            (omega (arith, length-append (codes "END SUCCESS ") number)),
      )
      refl
process_sync_slave_msg-end w c false number l =
    rw
      (
        strip_line-append b'E' (codes "ND UNSUCCESS " ++ number)
            (omega arith, Lacks-append b'\r' (codes "ND UNSUCCESS ") number (omega arith) l),
        substr_behind (codes "END UNSUCCESS ") number
            (length (codes "END UNSUCCESS " ++ number) - 13)
            (omega (arith, length-append (codes "END UNSUCCESS ") number)),
      )
      refl

-- A record with a number that the counter can take, and no carriage return behind it.
pub record IsNumbered (n : ℕ) (rest : Bytes) : Type 0 where
  pub positive : 0 < n
  pub small : n < int_max
  pub clean : Lacks b'\r' rest

-- The slave has saved the command, and is still the same client.
record IsCommitted (w : World) (c : ClientCb) (fd : ℤ) (k : ClientCmdType) (m : Bytes) (r : Reply)
    : Type 0 where
  file : r.0.file ≡ file_after k m w.file
  found : client_list_find r.0 fd ≡ some (in_state sync_s_commited c)

process_sync_slave_msg-IsCommitted :
    (w : World) (c : ClientCb) (fd : ℤ) (k : ClientCmdType) (s rest : Bytes) (n : ℕ)
    → k ≢ cmd_unset
    → client_list_find w fd ≡ some c
    → turned_away w c ≡ false
    → open_app w.file ≡ some s
    → IsNumbered n rest
    → (r : Reply) × (process_sync_slave_msg w c (commit_text k (numbered n rest)) ≡ ok r)
      × IsCommitted w c fd k (numbered n rest) r
unfolding client_list_find sync_set_slave_state
process_sync_slave_msg-IsCommitted w c fd client_cmd_write s rest n set e t o h = (
  _,
  process_sync_slave_msg-commit_write w c s rest n t o h.positive h.small h.clean,
  record {
    file = saved_at w.file s (numbered n rest) o;
    found = client_list_find-set_slave w sync_s_commited fd c e;
  },
)
process_sync_slave_msg-IsCommitted w c fd client_cmd_replace s rest n set e t o h = (
  _,
  process_sync_slave_msg-save_msg_replace w c (numbered n rest) t (
      Lacks-append b'\r' (to_string (pos n)) (b'/' ∷ rest) (to_string-Lacks b'\r' n (omega arith))
        (omega arith, h.clean)),
  record { file = refl; found = client_list_find-set_slave w sync_s_commited fd c e },
)
process_sync_slave_msg-IsCommitted w c fd cmd_unset s rest n set e t o h = absurd (set refl)

-- The three messages of a commit that goes well.
abbrev pub commit_messages : ClientCmdType → Bytes → Bool → List Bytes
commit_messages k m success =
    codes "PRECOMMIT\n" ∷ commit_text k m ∷ end_text success (before_slash m) ∷ []

set_slave-file : (w : World) (c : ClientCb) (s : SyncState) → (set_slave w c s).file ≡ w.file
unfolding sync_set_slave_state
set_slave-file w c s = refl

-- From any state, a slave that is sent the three messages has carried out the command.
pub follow-file :
    (p : World) (c : ClientCb) (fd : ℤ) (k : ClientCmdType) (s rest : Bytes) (n : ℕ)
    (success : Bool)
    → k ≢ cmd_unset
    → client_list_find p fd ≡ some c
    → open_app p.file ≡ some s
    → IsNumbered n rest
    → (u : World) × (follow p fd (commit_messages k (numbered n rest) success) ≡ ok u)
      × (u.file ≡ file_after k (numbered n rest) p.file)
unfolding follow sync_set_slave_state
follow-file p c fd k s rest n success set e o h =
    let m = numbered n rest in
    let v = set_slave (set_slave p c sync_s_precommit_received) c sync_s_precommit_ack in
    let d = in_state sync_s_precommit_ack (in_state sync_s_precommit_received c) in
    let here : client_list_find v fd ≡ some d =
      client_list_find-set_slave (set_slave p c sync_s_precommit_received) sync_s_precommit_ack fd
        (in_state sync_s_precommit_received c)
        (client_list_find-set_slave p sync_s_precommit_received fd c e) in
    let (r, f, committed) =
      process_sync_slave_msg-IsCommitted v d fd k s rest n set here refl o h in
    let last = in_state sync_s_commited d in
    let number : before_slash m ≡ to_string (pos n) =
      before_slash-append (to_string (pos n)) rest (to_string-Lacks b'/' n (omega arith)) in
    let clean : Lacks b'\r' (before_slash m) = rw number (to_string-Lacks b'\r' n (omega arith)) in
    let ended = process_sync_slave_msg-end r.0 last success (before_slash m) clean in
    (
      set_slave r.0 last sync_idle,
      rw e (
          rw (process_sync_slave_msg-precommit p c)
            (rw here (rw f (rw committed.found (rw ended refl))))),
      committed.file,
    )

-- Replication. After a two-phase commit that goes well, the master and a peer have the same file,
-- if they had it before: the peer has one connection to the master, has been sent what the master
-- sent, PRECOMMIT, COMMIT and END, in this order, and can write to its file. The record has a
-- number from 1 to INT_MAX - 1, and no carriage return; the master is as in the theorem on its
-- commit.
pub transact-follow :
    (r : ℕ) (os : Os) (others : World → World) (w p : World) (c d : ClientCb) (fd : ℤ)
    (k : ClientCmdType) (s rest : Bytes) (n : ℕ) (acks reports : List ClientCb)
    → 1 < r
    → IsReady os w c k (numbered n rest)
    → IsEveryPeer w acks
    → IsEveryPeer w reports
    → client_list_find p fd ≡ some d
    → open_app p.file ≡ some s
    → p.file ≡ w.file
    → IsNumbered n rest
    → (v : World) × (u : World) × (done : IsDone w c k
        (numbered n rest)
        (phase_calls w k (numbered n rest))
        v)
      × (transact r os others w c k (numbered n rest) acks reports ≡ ok v)
      × (follow p fd (commit_messages k (numbered n rest) done.saved.success) ≡ ok u)
      × (u.file ≡ v.file)
transact-follow r os others w p c d fd k s rest n acks reports l ready a b e o same h =
    let (v, f, done) =
      transact-IsDone r os others w c k (numbered n rest) acks reports l ready a b in
    let (u, g, file) = follow-file p d fd k s rest n done.saved.success ready.set e o h in
    (v, u, done, f, g, file ∙ ap (file_after k (numbered n rest)) same ∙ sym done.file)
