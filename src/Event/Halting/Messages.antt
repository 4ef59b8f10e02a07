-- ===== src/Event/Halting/Messages.antt =====
-- The handlers of the messages come to their end.
use bbserver.Base.{
  ℕ, ◌+◌, ◌-◌, ◌≡◌, inl, inr, Bool, true, false, not, ◌||◌, Option, none, some, List, [], ◌∷◌,
  arith, ltb, ◌==◌, if◌then◌else◌, Option-cases, length, take, drop, Bytes, codes, bytes_eq,
  out_of_range, invalid_argument, undefined, spinning, blocked, exited, Result, ok, err, ◌>>=◌,
  deref, ℤ, is_pos,
}
use bbserver.Types.{
  ClientCb, ClientCmdType, client_cmd_write, client_cmd_replace, SyncServerCb, is_state,
  sync_disconnect, sync_s_commited,
}
use bbserver.Text.{find, substr, stoi, has_prefix, before_slash}
use bbserver.World.{World, Os, called, socket_call}
use bbserver.Clients.{
  client_list_find, client_list_save_name, save_name, c_str, name_size, sync_save_client_cmd,
}
use bbserver.Servers.{
  ip_size, sync_server_list_find, connect_with, sync_connect_to_server, connect_loop,
  connect_servers, init_sync_server_connection,
}
use bbserver.MsgNumber.{int_suc, alloc_new_msg_number, update_msg_number}
use bbserver.Msg.Client.{
  argument, user_command, start_sync, write_with, write_command, replace_with, replace_command,
  command, with_argument, process_client_msg, contains, is_word, record_of, size_sub,
}
use bbserver.Msg.Slave.{
  set_slave, commit_write, commit_replace, turned_away, finish, slave_msg, process_sync_slave_msg,
}
use bbserver.Msg.Master.{Answer, number_behind, master_msg, process_sync_master_msg}
use bbserver.Msg.Strip.{byte_at, strip_line}

-- Anything but a loop or a wait without an end.
abbrev pub Halts {ℓ} : {A : Type ℓ} → Result A → Type 0
Halts (err spinning) = ⊥
Halts (err blocked) = ⊥
Halts _ = Unit

pub bind-Halts {ℓ κ} :
    {A : Type ℓ} {B : Type κ}
    → (r : Result A) (f : A → Result B) → Halts r
    → ((a : A) → Halts (f a))
    → Halts (r >>= f)
bind-Halts (ok a) f h k = k a
bind-Halts (err out_of_range) f h k = tt
bind-Halts (err invalid_argument) f h k = tt
bind-Halts (err undefined) f h k = tt
bind-Halts (err exited) f h k = tt
bind-Halts (err spinning) f h k = h
bind-Halts (err blocked) f h k = h

pub if-Halts {ℓ} :
    {A : Type ℓ} (b : Bool) (x y : Result A) → Halts x → Halts y → Halts (if b then x else y)
if-Halts true x y h k = h
if-Halts false x y h k = k

pub Halts-ok {ℓ} : {A : Type ℓ} → (r : Result A) (a : A) → r ≡ ok a → Halts r
Halts-ok r a e = rw e tt

pub deref-Halts {ℓ} : {A : Type ℓ} → (o : Option A) → Halts (deref o)
deref-Halts none = tt
deref-Halts (some a) = tt

substr-Halts : (s : Bytes) (p n : ℕ) → Halts (substr s p n)
substr-Halts s p n = if-Halts (ltb (length s) p) (err out_of_range) (ok (take n (drop p s))) tt tt

stoi-Halts : (s : Bytes) → Halts (stoi s)
unfolding stoi
stoi-Halts s = ground arith

save_name-Halts : (w : World) (str : Bytes) (o : Option ClientCb) → Halts (save_name w str o)
unfolding save_name
save_name-Halts w str none = tt
save_name-Halts w str (some c) = if-Halts (ltb (length (c_str str)) name_size) _ _ tt tt

user_command-Halts : (w : World) (c : ClientCb) (arg : Bytes) → Halts (user_command w c arg)
unfolding user_command client_list_save_name
user_command-Halts w c arg = if-Halts (contains b'/' arg || contains b' ' arg) _ _ tt (
    bind-Halts (client_list_save_name w c.fd arg) _
      (save_name-Halts w arg (client_list_find w c.fd)) (λ v. tt))

connect_with-Halts :
    (os : Os) (w : World) (ip : Bytes) (port : ℕ) (o : Option ℕ)
    → Halts (connect_with os w ip port o)
unfolding connect_with
connect_with-Halts os w ip port none = tt
connect_with-Halts os w ip port (some fd) =
    if-Halts (not (os.connects w.calls fd ip port)) _ _ tt
      (if-Halts (ltb (length ip) ip_size) _ _ tt tt)

connect_loop-Halts : (os : Os) (ps : List SyncServerCb) (w : World) → Halts (connect_loop os ps w)
unfolding connect_loop sync_connect_to_server
connect_loop-Halts os [] w = tt
connect_loop-Halts os (p ∷ ps) w =
    if-Halts (is_state p.state sync_disconnect) _ _
      (bind-Halts (sync_connect_to_server os w p.ip p.port) _
        (connect_with-Halts os (called w socket_call) p.ip p.port (os.socket w.calls))
        (λ c. bind-Halts (connect_loop os ps c.0) _ (connect_loop-Halts os ps c.0) (λ r. tt)))
      (bind-Halts (connect_loop os ps w) _ (connect_loop-Halts os ps w) (λ r. tt))

connect_servers-Halts :
    (os : Os) (w : World) (ps : List SyncServerCb) → Halts (connect_servers os w ps)
unfolding connect_servers
connect_servers-Halts os w [] = tt
connect_servers-Halts os w (p ∷ ps) =
    bind-Halts (connect_loop os (p ∷ ps) w) _ (connect_loop-Halts os (p ∷ ps) w) (λ r. tt)

start_sync-Halts :
    (os : Os) (w : World) (c : ClientCb) (k : ClientCmdType) (m : Bytes)
    → Halts (start_sync os w c k m)
unfolding start_sync init_sync_server_connection
start_sync-Halts os w c k m =
    let v = (sync_save_client_cmd w (some c.addr) k m).0 in
    bind-Halts (init_sync_server_connection os v) _ (connect_servers-Halts os v v.servers) (λ r. tt)

int_suc-Halts : (n : ℤ) → Halts (int_suc n)
int_suc-Halts n = ground arith

write_command-Halts :
    (os : Os) (w : World) (c : ClientCb) (arg : Bytes) → Halts (write_command os w c arg)
unfolding write_command write_with alloc_new_msg_number
write_command-Halts os w c arg =
    bind-Halts (alloc_new_msg_number w) _
      (bind-Halts (int_suc w.msg_number) _ (int_suc-Halts w.msg_number) (λ n. tt))
      (λ n.
        if-Halts n.0.config.sync_enable _ _
          (start_sync-Halts os n.0 c client_cmd_write (record_of n.1 c arg)) tt)

replace_with-Halts :
    (os : Os) (w : World) (c : ClientCb) (number body : Bytes)
    → Halts (replace_with os w c number body)
unfolding replace_with
replace_with-Halts os w c number body = if-Halts (length body == 0) _ _ tt (
    if-Halts w.config.sync_enable _ _
      (start_sync-Halts os w c client_cmd_replace (record_of number c body)) tt)

replace_command-Halts :
    (os : Os) (w : World) (c : ClientCb) (arg : Bytes) → Halts (replace_command os w c arg)
unfolding replace_command
replace_command-Halts os w c arg = elim (Option-cases (find b'/' arg)) [
  | inl e ↦ rw (e, replace_command) tt
  | inr (p, e) ↦ rw (e, replace_command) (replace_with-Halts os w c (take p arg) (drop (p + 1) arg))
]

command-Halts :
    (os : Os) (w : World) (c : ClientCb) (word arg : Bytes) → Halts (command os w c word arg)
unfolding command
command-Halts os w c word arg =
    if-Halts (is_word word (codes "USER") (codes "user")) _ _ (user_command-Halts w c arg) (
      if-Halts (is_word word (codes "READ") (codes "read")) _ _ tt (
        if-Halts (is_word word (codes "WRITE") (codes "write")) _ _ (write_command-Halts os w c arg)
          (if-Halts (is_word word (codes "REPLACE") (codes "replace")) _ _
            (replace_command-Halts os w c arg)
            (if-Halts (is_word word (codes "QUIT") (codes "quit")) _ _ tt tt))))

argument-Halts : (msg : Bytes) (p : ℕ) → Halts (argument msg p)
unfolding argument
argument-Halts msg p = if-Halts (ltb (length msg) 2) _ _ tt (
    if-Halts (byte_at msg (length msg - 2) == b'\r') _ _
      (substr-Halts msg (p + 1) (size_sub (length msg) (p + 3)))
      (substr-Halts msg (p + 1) (size_sub (length msg) (p + 2))))

pub process_client_msg-Halts :
    (os : Os) (w : World) (c : ClientCb) (msg : Bytes) → Halts (process_client_msg os w c msg)
unfolding process_client_msg with_argument
process_client_msg-Halts os w c msg = elim (Option-cases (find b' ' msg)) [
  | inl e ↦ rw (e, process_client_msg) tt
  | inr (p, e) ↦
      rw (e, process_client_msg)
        (bind-Halts (argument msg p) _ (argument-Halts msg p) (λ arg.
          if-Halts (length (take p msg) == 0 || length arg == 0) _ _ tt
            (command-Halts os w c (take p msg) arg)))
]

strip_line-Halts : (buf : Bytes) → Halts (strip_line buf)
unfolding strip_line
strip_line-Halts buf = if-Halts (ltb (length buf) 2) _ _ tt tt

commit_write-Halts : (w : World) (c : ClientCb) (msg : Bytes) → Halts (commit_write w c msg)
unfolding commit_write update_msg_number
commit_write-Halts w c msg =
    bind-Halts (substr msg 13 (length msg - 12)) _ (substr-Halts msg 13 (length msg - 12)) (λ body.
      bind-Halts (update_msg_number (set_slave w c sync_s_commited) (before_slash body)) _
        (bind-Halts (stoi (before_slash body)) _ (stoi-Halts (before_slash body))
          (λ n. if-Halts (is_pos n) _ _ tt tt))
        (λ r. tt))

commit_replace-Halts : (w : World) (c : ClientCb) (msg : Bytes) → Halts (commit_replace w c msg)
unfolding commit_replace
commit_replace-Halts w c msg =
    bind-Halts (substr msg 15 (length msg - 14)) _ (substr-Halts msg 15 (length msg - 14))
      (λ body. tt)

finish-Halts : (w : World) (c : ClientCb) (msg : Bytes) (n : ℕ) → Halts (finish w c msg n)
finish-Halts w c msg n =
    bind-Halts (substr msg (n + 1) (length msg - n)) _ (substr-Halts msg (n + 1) (length msg - n))
      (λ number. tt)

slave_msg-Halts : (w : World) (c : ClientCb) (msg : Bytes) → Halts (slave_msg w c msg)
unfolding slave_msg
slave_msg-Halts w c msg = if-Halts (bytes_eq msg (codes "PRECOMMIT")) _ _ tt (
    if-Halts (bytes_eq msg (codes "ABORT")) _ _ tt (
      if-Halts (has_prefix msg (codes "COMMIT WRITE")) _ _
        (if-Halts (turned_away w c) _ _ tt (commit_write-Halts w c msg))
        (if-Halts (has_prefix msg (codes "COMMIT REPLACE")) _ _
          (if-Halts (turned_away w c) _ _ tt (commit_replace-Halts w c msg))
          (if-Halts (has_prefix msg (codes "END SUCCESS")) _ _ (finish-Halts w c msg 11)
            (if-Halts (has_prefix msg (codes "END UNSUCCESS")) _ _ (finish-Halts w c msg 13) tt)))))

pub process_sync_slave_msg-Halts :
    (w : World) (c : ClientCb) (buf : Bytes) → Halts (process_sync_slave_msg w c buf)
unfolding process_sync_slave_msg
process_sync_slave_msg-Halts w c buf =
    bind-Halts (strip_line buf) _ (strip_line-Halts buf) (λ msg. slave_msg-Halts w c msg)

number_behind-Halts : (msg : Bytes) (n : ℕ) → Halts (number_behind msg n)
number_behind-Halts msg n = substr-Halts msg (n + 1) (length msg - n)

master_msg-Halts : (w : World) (a : Answer) → Halts (master_msg w a)
unfolding master_msg
master_msg-Halts w a = if-Halts (bytes_eq a.msg (codes "5.0 PRECOMMIT ACK")) _ _ tt (
    if-Halts (bytes_eq a.msg (codes "5.1 ERROR PRECOMMIT")) _ _ tt (
      if-Halts (has_prefix a.msg (codes "6.0 COMMITED SUCCESS")) _ _ (numbered 20 _) (
        if-Halts (has_prefix a.msg (codes "6.1 COMMITED UNSUCCESS")) _ _ (numbered 22 _) (
          if-Halts (has_prefix a.msg (codes "6.2 COMMITED UNSUCCESS UNKNOWN")) _ _ (numbered 30 _)
            tt))))
  where
    numbered : (n : ℕ) (f : Bytes → World) → Halts (do b ← number_behind a.msg n; ok (f b))
    numbered n f =
        bind-Halts (number_behind a.msg n) (λ b. ok (f b)) (number_behind-Halts a.msg n) (λ b. tt)

pub process_sync_master_msg-Halts :
    (w : World) (c : ClientCb) (buf : Bytes) → Halts (process_sync_master_msg w c buf)
unfolding process_sync_master_msg
process_sync_master_msg-Halts w c buf = bind-Halts (strip_line buf) _ (strip_line-Halts buf) (λ msg.
    master_msg-Halts w (record { client = c; msg = msg; server = sync_server_list_find w c.fd }))
