-- ===== src/Clients.antt =====
-- list.cpp, the list of clients. A pointer to a client is its address or, for null, `none`.
pub mod Find
pub mod Shape
pub mod Single
use bbserver.Base.{
  ℕ, zero, suc, ◌+◌, ◌-◌, ◌*◌, ◌/◌, ◌%◌, ◌^◌, ◌≤◌, ◌<◌, ◌≡◌, refl, sym, ap, ◌∙◌, ◌≢◌, ◌↔◌, ◌⊎◌, inl,
  inr, Bool, true, false, not, ◌&&◌, ◌||◌, Option, none, some, List, [], ◌∷◌, ◌++◌, map, append-nil,
  append_assoc, arith, ltb, leb, ◌==◌, if◌then◌else◌, ltb→lt, lt→ltb, ==_iff, ==_refl, Bool-cases,
  Option-cases, length, get_elem?, take, drop, replicate, any_of, all_of, count_of, first_of_list,
  length-append, take-append, drop-append, length-replicate, All, Bytes, codes, bytes_eq,
  bytes_eq_refl, bytes_eq→eq, Lacks, Lacks-append, Fault, out_of_range, invalid_argument, undefined,
  spinning, exited, Result, ok, err, ◌>>=◌, deref, ℤ, pos, negsuc, int_max, eq_ℤ, is_neg, is_pos,
  eq_ℤ_iff, eq_ℤ_refl,
}
use bbserver.Text.{before_slash}
use bbserver.Types.{
  ClientType, ClientCmdType, cmd_unset, SyncState, sync_null, sync_idle, sync_s_precommit_ack,
  sync_s_commited, sync_u_waiting_commit, sync_u_waiting_save, ClientCb, is_state, is_user,
  is_slave, sync_state_timeout,
}
use bbserver.World.{World}

-- `new clientCB` and memset: every field 0, at a new address
abbrev pub new_client : ℕ → ClientCb
new_client a = record {
  addr = a;
  fd = pos 0;
  type = ClientType.client_user;
  cmd = cmd_unset;
  slave_state = sync_null;
  name = [];
  ip = [];
  port = 0;
  slave_timeout = false;
  msg_number = [];
  msg = [];
}

-- An assignment through the pointer `a`.
unfoldable pub update : ℕ → (ClientCb → ClientCb) → List ClientCb → List ClientCb
update a f [] = []
update a f (c ∷ cs) = (if c.addr == a then f c else c) ∷ update a f cs

-- LIST_REMOVE
unfoldable pub remove : ℕ → List ClientCb → List ClientCb
remove a [] = []
remove a (c ∷ cs) = if c.addr == a then cs else c ∷ remove a cs

-- `client_list_add`: at the head
unfoldable pub client_list_add : World → ClientCb → World
client_list_add w c = record w { clients = c ∷ w.clients }

-- `client_list_del`, with the value that it returns
unfoldable pub client_list_del : World → Option ℕ → World × ℤ
unfolding remove
client_list_del w none = (w, negsuc 0)
client_list_del w (some a) = (record w { clients = remove a w.clients }, pos 0)

-- `client_list_find`: the first node with the descriptor
unfoldable pub client_list_find : World → ℤ → Option ClientCb
client_list_find w fd = first_of_list (λ (c : ClientCb). eq_ℤ c.fd fd) w.clients

-- The text behind a char pointer ends at the first 0.
abbrev pub c_str : Bytes → Bytes
c_str [] = []
c_str (zero ∷ s) = []
c_str (suc c ∷ s) = suc c ∷ c_str s

-- `name` has 64 bytes, with the closing 0.
abbrev pub name_size : ℕ
name_size = 64

-- The round of `client_list_save_name` that has found the node: strcpy writes behind `name` if the
-- text does not fit.
unfoldable pub save_name : World → Bytes → Option ClientCb → Result World
unfolding update
save_name w str none = ok w
save_name w str (some c) =
    if ltb (length (c_str str)) name_size
    then ok (record w { clients = update c.addr (λ d. record d { name = c_str str }) w.clients })
    else err undefined

unfoldable pub client_list_save_name : World → ℤ → Bytes → Result World
unfolding save_name client_list_find
client_list_save_name w fd str = save_name w str (client_list_find w fd)

-- `start_timer_slave`, `stop_timer_slave` and the switch of `sync_set_slave_state`
abbrev pub slave_timer : SyncState → ℕ → ℕ
slave_timer sync_s_precommit_ack t = sync_state_timeout
slave_timer sync_s_commited t = 0
slave_timer _ t = t

unfoldable pub sync_set_slave_state : World → Option ℕ → SyncState → World × ℤ
unfolding update
sync_set_slave_state w none s = (w, negsuc 0)
sync_set_slave_state w (some a) s = (
  record w {
    clients = update a (λ c. record c { slave_state = s }) w.clients;
    timer_slave = slave_timer s w.timer_slave;
  },
  pos 0,
)

unfoldable pub sync_set_client_state : World → Option ℕ → SyncState → World × ℤ
unfolding update
sync_set_client_state w none s = (w, negsuc 0)
sync_set_client_state w (some a) s =
    (record w { clients = update a (λ c. record c { slave_state = s }) w.clients }, pos 1)

unfoldable pub sync_save_client_cmd : World → Option ℕ → ClientCmdType → Bytes → World × ℤ
unfolding update
sync_save_client_cmd w none k m = (w, negsuc 0)
sync_save_client_cmd w (some a) k m = (
  record w {
    clients =
        update a
          (λ c. record c {
            cmd = k;
            msg = m;
            msg_number = before_slash m;
            slave_state = sync_u_waiting_commit;
          })
          w.clients;
  },
  pos 1,
)

unfoldable pub sync_clear_client_cmd : World → Option ℕ → World × ℤ
unfolding update
sync_clear_client_cmd w none = (w, negsuc 0)
sync_clear_client_cmd w (some a) = (
  record w {
    clients =
        update a (λ c. record c { msg = []; msg_number = []; slave_state = sync_idle }) w.clients;
  },
  pos 1,
)

abbrev pub waits_commit : ClientCb → Bool
waits_commit c = is_user c.type && is_state c.slave_state sync_u_waiting_commit

abbrev pub waits_save : ClientCb → Bool
waits_save c = is_user c.type && is_state c.slave_state sync_u_waiting_save

abbrev pub slave_acked : ClientCb → Bool
slave_acked c = is_slave c.type && is_state c.slave_state sync_s_precommit_ack

unfoldable pub sync_find_waiting_commit_user_client : World → Option ClientCb
sync_find_waiting_commit_user_client w = first_of_list waits_commit w.clients

unfoldable pub sync_find_waiting_save_user_client : World → Option ClientCb
sync_find_waiting_save_user_client w = first_of_list waits_save w.clients

unfoldable pub sync_find_waiting_commit_slave_client : World → Option ClientCb
sync_find_waiting_commit_slave_client w = first_of_list slave_acked w.clients

-- `client_list_clear`: the nodes are removed from the head on
unfoldable pub client_list_clear : World → World
client_list_clear w = record w { clients = [] }

-- `create_client_list`
abbrev pub create_client_list : World → World
create_client_list w = record w { clients = [] }

-- `destroy_client_list`
abbrev pub destroy_client_list : World → World
destroy_client_list w = client_list_clear w

-- `client_list_get_first`
abbrev pub client_list_get_first : List ClientCb → Option ℕ
client_list_get_first [] = none
client_list_get_first (c ∷ cs) = some c.addr

-- `client_list_get_next` of the node at `a`
abbrev pub client_list_get_next : ℕ → List ClientCb → Option ℕ
client_list_get_next a [] = none
client_list_get_next a (c ∷ cs) =
    let later = client_list_get_next a cs in if c.addr == a then client_list_get_first cs else later
