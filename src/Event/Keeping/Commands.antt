-- ===== src/Event/Keeping/Commands.antt =====
-- The users' commands.
use bbserver.Base.{
  Each, bind-Each, bind_any, if-Each, branch-Each, ◌+◌, refl, inl, inr, Bool, ◌||◌, Option, none,
  some, ltb, ◌==◌, if◌then◌else◌, Bool-cases, Option-cases, length, take, drop, Bytes, codes,
  Result, ℤ, is_neg, is_pos,
}
use bbserver.Types.{
  ClientCb, ClientCmdType, sync_m_precommit_multicasted, client_cmd_write, client_cmd_replace,
}
use bbserver.Text.{find, stoi}
use bbserver.World.{World, Os}
use bbserver.Clients.{
  client_list_find, client_list_save_name, save_name, c_str, name_size, sync_save_client_cmd,
}
use bbserver.Servers.{init_sync_server_connection, sync_send_precommit}
use bbserver.MsgNumber.{wrap_number, int_suc, alloc_new_msg_number, update_msg_number}
use bbserver.Msg.Client.{
  argument, user_command, start_sync, write_with, write_command, replace_with, replace_command,
  command, with_argument, process_client_msg, contains, is_word, record_of,
}
use bbserver.Board.{save_msg_write, save_msg_replace}
use bbserver.Msg.Client.Start.{waiting}
use bbserver.Event.Keeping.{Rules}

module _ (P : World → Type 0) (rules : Rules P) where
  -- What a handler returns besides the world.
  abbrev pub Fine {ℓ} : {A : Type ℓ} → Result (World × A) → Type 0
  Fine r = Each (λ p. P p.0) r

  save_name_keeps :
      (w : World) (str : Bytes) (o : Option ClientCb) → P w → Each P (save_name w str o)
  unfolding save_name
  save_name_keeps w str none h = h
  save_name_keeps w str (some c) h =
      if-Each P (ltb (length (c_str str)) name_size) _ _
        (rules.assigns w (λ d. record d { name = c_str str }) c.addr (λ d. refl) h) tt

  user_command_keeps : (w : World) (c : ClientCb) (arg : Bytes) → P w → Fine (user_command w c arg)
  unfolding user_command client_list_save_name
  user_command_keeps w c arg h =
      if-Each (λ (p : World × Bytes). P p.0) (contains b'/' arg || contains b' ' arg) _ _ h
        (bind-Each P (λ (p : World × Bytes). P p.0) (client_list_save_name w c.fd arg) _
          (save_name_keeps w arg (client_list_find w c.fd) h) (λ v k. k))

  start_sync_keeps :
      (os : Os) (w : World) (c : ClientCb) (k : ClientCmdType) (m : Bytes)
      → P w
      → Fine (start_sync os w c k m)
  unfolding start_sync sync_save_client_cmd sync_send_precommit
  start_sync_keeps os w c k m h =
      bind-Each (λ (r : World × ℤ). P r.0) (λ (p : World × Bytes). P p.0)
        (init_sync_server_connection os (sync_save_client_cmd w (some c.addr) k m).0) _
        (rules.connects os (sync_save_client_cmd w (some c.addr) k m).0
          (rules.assigns w (waiting k m) c.addr (λ d. refl) h))
        (λ r d. elim (Bool-cases (is_neg r.1)) [
          | inl e ↦ rw e d
          | inr e ↦ rw e (rules.sends os r.0 (codes "PRECOMMIT\n") sync_m_precommit_multicasted d)
        ])

  alloc_new_msg_number_keeps : (w : World) → P w → Fine (alloc_new_msg_number w)
  unfolding alloc_new_msg_number
  alloc_new_msg_number_keeps w h =
      bind_any (λ (n : World × Bytes). P n.0) (int_suc w.msg_number) _
        (λ n. rules.number w (wrap_number n) h)

  pub update_msg_number_keeps : (w : World) (s : Bytes) → P w → Fine (update_msg_number w s)
  unfolding update_msg_number
  update_msg_number_keeps w s h =
      bind_any (λ (r : World × ℤ). P r.0) (stoi s) _
        (λ n.
          if-Each (λ (r : World × ℤ). P r.0) (is_pos n) _ _ (rules.number w (wrap_number n) h) h)

  write_command_keeps :
      (os : Os) (w : World) (c : ClientCb) (arg : Bytes) → P w → Fine (write_command os w c arg)
  unfolding write_command write_with
  write_command_keeps os w c arg h =
      bind-Each (λ (n : World × Bytes). P n.0) (λ (p : World × Bytes). P p.0)
        (alloc_new_msg_number w) _ (alloc_new_msg_number_keeps w h)
        (λ n k.
          branch-Each (λ (p : World × Bytes). P p.0) n.0.config.sync_enable _ _
            (λ e. start_sync_keeps os n.0 c client_cmd_write (record_of n.1 c arg) k)
            (λ e. rules.saves n.0 (save_msg_write n.0.file (record_of n.1 c arg)).0 e k))

  replace_with_keeps :
      (os : Os) (w : World) (c : ClientCb) (number body : Bytes)
      → P w
      → Fine (replace_with os w c number body)
  unfolding replace_with
  replace_with_keeps os w c number body h =
      if-Each (λ (p : World × Bytes). P p.0) (length body == 0) _ _ h
        (branch-Each (λ (p : World × Bytes). P p.0) w.config.sync_enable _ _
          (λ e. start_sync_keeps os w c client_cmd_replace (record_of number c body) h)
          (λ e. rules.saves w (save_msg_replace w.file (record_of number c body)).0 e h))

  replace_command_keeps :
      (os : Os) (w : World) (c : ClientCb) (arg : Bytes) → P w → Fine (replace_command os w c arg)
  unfolding replace_command
  replace_command_keeps os w c arg h = elim (Option-cases (find b'/' arg)) [
    | inl e ↦ rw (e, replace_command) h
    | inr (p, e) ↦
        rw (e, replace_command) (replace_with_keeps os w c (take p arg) (drop (p + 1) arg) h)
  ]

  command_keeps :
      (os : Os) (w : World) (c : ClientCb) (word arg : Bytes) → P w → Fine (command os w c word arg)
  unfolding command
  command_keeps os w c word arg h =
      choose (is_word word (codes "USER") (codes "user")) _ _ (user_command_keeps w c arg h) (
        choose (is_word word (codes "READ") (codes "read")) _ _ h (
          choose (is_word word (codes "WRITE") (codes "write")) _ _
            (write_command_keeps os w c arg h)
            (choose (is_word word (codes "REPLACE") (codes "replace")) _ _
              (replace_command_keeps os w c arg h)
              (choose (is_word word (codes "QUIT") (codes "quit")) _ _ h h))))
    where
      choose :
          (b : Bool) (x y : Result (World × Bytes)) → Fine x → Fine y → Fine (if b then x else y)
      choose = if-Each (λ p. P p.0)

  pub process_client_msg_keeps :
      (os : Os) (w : World) (c : ClientCb) (msg : Bytes)
      → P w
      → Fine (process_client_msg os w c msg)
  unfolding process_client_msg with_argument
  process_client_msg_keeps os w c msg h = elim (Option-cases (find b' ' msg)) [
    | inl e ↦ rw (e, process_client_msg) h
    | inr (p, e) ↦
        rw (e, process_client_msg)
          (bind_any (λ (r : World × Bytes). P r.0) (argument msg p) _
            (λ arg.
              if-Each (λ (r : World × Bytes). P r.0) (length (take p msg) == 0 || length arg == 0) _
                _ h (command_keeps os w c (take p msg) arg h)))
  ]
