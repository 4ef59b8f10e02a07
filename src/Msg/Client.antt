-- ===== src/Msg/Client.antt =====
-- msg.cpp: `process_client_msg`, the commands USER, READ, WRITE, REPLACE, QUIT and HELP of a user.
pub mod Parse
pub mod RoundTrip
pub mod Refinement
pub mod Start
use bbserver.Base.{
  ℕ, zero, suc, ◌+◌, ◌-◌, ◌*◌, ◌/◌, ◌%◌, ◌^◌, ◌≤◌, ◌<◌, ◌≡◌, refl, sym, ap, ◌∙◌, ◌≢◌, ◌↔◌, ◌⊎◌, inl,
  inr, Bool, true, false, not, ◌&&◌, ◌||◌, Option, none, some, List, [], ◌∷◌, ◌++◌, map, append-nil,
  append_assoc, arith, ltb, leb, ◌==◌, if◌then◌else◌, ltb→lt, lt→ltb, ==_iff, ==_refl, Bool-cases,
  Option-cases, length, get_elem?, take, drop, replicate, any_of, all_of, count_of, first_of_list,
  length-append, take-append, drop-append, length-replicate, All, Bytes, codes, bytes_eq,
  bytes_eq_refl, bytes_eq→eq, Lacks, Lacks-append, Fault, out_of_range, invalid_argument, undefined,
  spinning, exited, Result, ok, err, ◌>>=◌, deref, ℤ, pos, negsuc, int_max, eq_ℤ, is_neg, is_pos,
  eq_ℤ_iff, eq_ℤ_refl,
}
use bbserver.Text.{find, substr, has_prefix}
use bbserver.Types.{ClientCb, ClientCmdType, client_cmd_write, client_cmd_replace}
use bbserver.World.{World, Os}
use bbserver.Board.{read_msg, save_msg_write, save_msg_replace}
use bbserver.Clients.{client_list_save_name, sync_save_client_cmd}
use bbserver.Servers.{init_sync_server_connection, sync_send_precommit}
use bbserver.MsgNumber.{alloc_new_msg_number}
use bbserver.Msg.Strip.{byte_at}

-- The world and the text put into `response`, which is empty before; the value returned is 0.
abbrev pub Reply : Type 0
Reply = World × Bytes

abbrev pub contains : ℕ → Bytes → Bool
contains c = any_of (λ x. x == c)

-- MSG_HELP
abbrev pub msg_help : Bytes
msg_help =
    codes
      "COMMMANS FORMAT:\nUSER name\nREAD message-number\nWRITE message\nREPLACE message-number/message\nQUIT"

abbrev pub error_command : Bytes
error_command = codes "ERROR COMMAND"

-- A message with no space.
unfoldable pub one_word : Bytes → Bytes
one_word msg =
    if length msg == 6 && (has_prefix msg (codes "QUIT") || has_prefix msg (codes "quit"))
    then codes "4.0 BYE"
    else if length msg == 6 && (has_prefix msg (codes "HELP") || has_prefix msg (codes "help"))
    then msg_help
    else error_command

-- size_t is 64 bits wide
abbrev pub size_sub : ℕ → ℕ → ℕ
size_sub a b = (a + 2 ^ 64 - b) % 2 ^ 64

-- `arg2`, behind the space at `p`: less \r\n or the last byte. `msg[msg.size()-2]` of a message of
-- one byte is out of bounds.
unfoldable pub argument : Bytes → ℕ → Result Bytes
argument msg p =
    if ltb (length msg) 2
    then err undefined
    else if byte_at msg (length msg - 2) == b'\r'
    then substr msg (p + 1) (size_sub (length msg) (p + 3))
    else substr msg (p + 1) (size_sub (length msg) (p + 2))

unfoldable pub user_command : World → ClientCb → Bytes → Result Reply
user_command w c arg =
    if contains b'/' arg || contains b' ' arg
    then ok (w, codes "1.2 ERROR USER")
    else (do w' ← client_list_save_name w c.fd arg; ok (w', codes "1.0 HELLO " ++ arg))

-- The name of the client, or "nobody".
abbrev pub user_name : Bytes → Bytes
user_name [] = codes "nobody"
user_name (c ∷ s) = c ∷ s

-- number/user/message
abbrev pub record_of : Bytes → ClientCb → Bytes → Bytes
record_of number c body = number ++ b'/' ∷ (user_name c.name ++ b'/' ∷ body)

-- With peers configured: the command waits for the peers, which must all be connected.
unfoldable pub start_sync : Os → World → ClientCb → ClientCmdType → Bytes → Result Reply
start_sync os w c k m = do
  r ← init_sync_server_connection os (sync_save_client_cmd w (some c.addr) k m).0
  ok (if is_neg r.1 then (r.0, codes "3.2 ERROR WRITE") else ((sync_send_precommit os r.0).0, []))

-- The answer to WRITE, by what `save_msg_write` returned.
abbrev pub wrote : Bytes → ℤ → Bytes
wrote number ret =
    if eq_ℤ ret (pos 0) then codes "3.0 WROTE " ++ number else codes "3.2 ERROR WRITE"

abbrev pub save_write : World → Bytes → Bytes → Reply
save_write w m number =
    let saved = save_msg_write w.file m in (record w { file = saved.0 }, wrote number saved.1)

-- WRITE with its new number.
unfoldable pub write_with : Os → World → ClientCb → Bytes → Bytes → Result Reply
unfolding start_sync
write_with os w c number arg =
    if w.config.sync_enable
    then start_sync os w c client_cmd_write (record_of number c arg)
    else ok (save_write w (record_of number c arg) number)

unfoldable pub write_command : Os → World → ClientCb → Bytes → Result Reply
unfolding write_with
write_command os w c arg = do n ← alloc_new_msg_number w; write_with os n.0 c n.1 arg

-- The answer to REPLACE, by what `save_msg_replace` returned.
abbrev pub replaced : Bytes → ℤ → Bytes
replaced number ret =
    if eq_ℤ ret (pos 0)
    then codes "3.3 REPLACED " ++ number
    else if eq_ℤ ret (negsuc 0)
    then codes "3.1 UNKNOWN " ++ number
    else codes "3.2 ERROR WRITE"

abbrev pub save_replace : World → Bytes → Bytes → Reply
save_replace w m number =
    let saved = save_msg_replace w.file m in (record w { file = saved.0 }, replaced number saved.1)

-- REPLACE with its number and its message.
unfoldable pub replace_with : Os → World → ClientCb → Bytes → Bytes → Result Reply
unfolding start_sync
replace_with os w c number body =
    if length body == 0
    then ok (w, error_command)
    else if w.config.sync_enable
    then start_sync os w c client_cmd_replace (record_of number c body)
    else ok (save_replace w (record_of number c body) number)

unfoldable pub replace_command : Os → World → ClientCb → Bytes → Result Reply
unfolding replace_with
replace_command os w c arg = elim (find b'/' arg) [
  | none ↦ ok (w, error_command)
  | some p ↦ replace_with os w c (take p arg) (drop (p + 1) arg)
]

abbrev pub is_word : Bytes → Bytes → Bytes → Bool
is_word s upper lower = bytes_eq s upper || bytes_eq s lower

-- A command with its argument.
unfoldable pub command : Os → World → ClientCb → Bytes → Bytes → Result Reply
unfolding user_command write_command replace_command
command os w c word arg =
    if is_word word (codes "USER") (codes "user")
    then user_command w c arg
    else if is_word word (codes "READ") (codes "read")
    then ok (w, read_msg w.file arg)
    else if is_word word (codes "WRITE") (codes "write")
    then write_command os w c arg
    else if is_word word (codes "REPLACE") (codes "replace")
    then replace_command os w c arg
    else if is_word word (codes "QUIT") (codes "quit")
    then ok (w, codes "4.0 BYE")
    else ok (w, error_command)

unfoldable pub with_argument : Os → World → ClientCb → Bytes → Bytes → Result Reply
unfolding command
with_argument os w c word arg =
    if length word == 0 || length arg == 0 then ok (w, error_command) else command os w c word arg

unfoldable pub process_client_msg : Os → World → ClientCb → Bytes → Result Reply
unfolding one_word argument with_argument
process_client_msg os w c msg = elim (find b' ' msg) [
  | none ↦ ok (w, one_word msg)
  | some p ↦ do arg ← argument msg p; with_argument os w c (take p msg) arg
]
