-- ===== src/Msg/Slave/Commit.antt =====
-- What a slave does on the COMMIT that a master sends, and when it refuses to.
use bbserver.Base.{
  ℕ, ◌-◌, ◌<◌, ◌≡◌, refl, ap, ◌∙◌, ◌≢◌, inl, inr, Bool-cases, Option, none, Option-cases, any_of,
  bytes_eq, true, false, some, [], ◌∷◌, ◌++◌, arith, if◌then◌else◌, length, length-append, Bytes,
  codes, Lacks, Lacks-append, ok, Result, ℤ, pos, negsuc, int_max,
}
use bbserver.Text.{before_slash, to_string}
use bbserver.Text.Search.{substr_behind, before_slash-append}
use bbserver.Text.Decimal.{to_string-Lacks}
use bbserver.Types.{
  ClientCb, client_cmd_write, client_cmd_replace, SyncState, sync_s_precommit_ack, sync_s_commited,
}
use bbserver.Types.Codes.{is_state→eq}
use bbserver.World.{World}
use bbserver.Clients.{sync_set_slave_state}
use bbserver.Board.{
  BbFile, Line, lines, open_app, open_in_out, endl, save_msg_write, save_msg_replace,
}
use bbserver.Servers.{commit_text}
use bbserver.MsgNumber.{update_msg_number}
use bbserver.MsgNumber.Alloc.{update_msg_number-to_string}
use bbserver.Msg.Strip.{strip_line, strip_line-append}
use bbserver.Board.Replace.{save_msg_replace_shut, save_msg_replace-any_of}
use bbserver.Msg.Slave.{
  Reply, set_slave, write_answer, replace_answer, commit_write, commit_replace, slave_msg,
  turned_away, process_sync_slave_msg,
}

abbrev write_keyword : Bytes
write_keyword = codes "COMMIT WRITE "

abbrev replace_keyword : Bytes
replace_keyword = codes "COMMIT REPLACE "

save_msg_write_opens :
    (f : BbFile) (m s : Bytes)
    → open_app f ≡ some s
    → save_msg_write f m ≡ (record f { content = some (s ++ (m ++ endl)) }, pos 0)
unfolding save_msg_write
save_msg_write_opens f m s e = rw e

commit_write_lem :
    (w w' : World) (c : ClientCb) (m : Bytes) (ret : ℤ)
    → update_msg_number (set_slave w c sync_s_commited) (before_slash m) ≡ ok (w', ret)
    → commit_write w c (write_keyword ++ m)
      ≡ ok (
        record w' { file = (save_msg_write w'.file m).0 },
        write_answer (save_msg_write w'.file m).1 ++ b' ' ∷ before_slash m,
        pos 0,
      )
unfolding commit_write
commit_write_lem w w' c m ret e =
    rw
      (substr_behind write_keyword m (length (write_keyword ++ m) - 12)
        (omega (arith, length-append write_keyword m)))
      (rw e)

commit_replace_lem :
    (w : World) (c : ClientCb) (m : Bytes)
    → commit_replace w c (replace_keyword ++ m) ≡ (
        let w' = set_slave w c sync_s_commited in
        ok (
          record w' { file = (save_msg_replace w'.file m).0 },
          replace_answer (save_msg_replace w'.file m).1 ++ b' ' ∷ before_slash m,
          pos 0,
        ))
unfolding commit_replace
commit_replace_lem w c m = rw (
    substr_behind replace_keyword m (length (replace_keyword ++ m) - 14)
      (omega (arith, length-append replace_keyword m)))

slave_msg-write :
    (w : World) (c : ClientCb) (m : Bytes)
    → slave_msg w c (write_keyword ++ m)
      ≡ (if turned_away w c then ok (w, [], negsuc 0) else commit_write w c (write_keyword ++ m))
unfolding slave_msg
slave_msg-write w c m = refl

slave_msg-replace :
    (w : World) (c : ClientCb) (m : Bytes)
    → slave_msg w c (replace_keyword ++ m) ≡ (
        if turned_away w c then ok (w, [], negsuc 0) else commit_replace w c (replace_keyword ++ m))
unfolding slave_msg
slave_msg-replace w c m = refl

-- The bytes of `sync_send_commit` come to the slave's branch with the keyword in front.
strip_line-commit_write :
    (m : Bytes)
    → Lacks b'\r' m
    → strip_line (commit_text client_cmd_write m) ≡ ok (write_keyword ++ m)
strip_line-commit_write m h =
    strip_line-append b'C' (codes "OMMIT WRITE " ++ m)
      (omega arith, Lacks-append b'\r' (codes "OMMIT WRITE ") m (omega arith) h)

strip_line-commit_replace :
    (m : Bytes)
    → Lacks b'\r' m
    → strip_line (commit_text client_cmd_replace m) ≡ ok (replace_keyword ++ m)
strip_line-commit_replace m h =
    strip_line-append b'C' (codes "OMMIT REPLACE " ++ m)
      (omega arith, Lacks-append b'\r' (codes "OMMIT REPLACE ") m (omega arith) h)

-- number/user/message
abbrev pub numbered : ℕ → Bytes → Bytes
numbered n rest = to_string (pos n) ++ b'/' ∷ rest

-- A slave that has acknowledged the PRECOMMIT, or one at debug level 0 in any state, carries out a
-- COMMIT WRITE that arrives as `sync_send_commit` has put it together, if its file can be written
-- to: the record is the new last line of the file, the counter is the number of the record, the
-- slave is committed with its timer stopped, and the answer is "6.0 COMMITED SUCCESS" with the
-- number. The record has a number from 1 to INT_MAX - 1 in front of its first slash, and no
-- carriage return.
pub process_sync_slave_msg-commit_write :
    (w : World) (c : ClientCb) (s rest : Bytes) (n : ℕ)
    → turned_away w c ≡ false
    → open_app w.file ≡ some s
    → 0 < n
    → n < int_max
    → Lacks b'\r' rest
    → process_sync_slave_msg w c (commit_text client_cmd_write (numbered n rest))
      ≡ ok (
        record (set_slave w c sync_s_commited) {
          msg_number = pos n;
          file = record w.file { content = some (s ++ (numbered n rest ++ endl)) };
        },
        codes "6.0 COMMITED SUCCESS " ++ to_string (pos n),
        pos 0,
      )
unfolding process_sync_slave_msg sync_set_slave_state
process_sync_slave_msg-commit_write w c s rest n t e h k r = rw (
  strip_line-commit_write (numbered n rest) clean,
  slave_msg-write w c (numbered n rest),
  t,
  commit_write_lem w (record (set_slave w c sync_s_commited) { msg_number = pos n }) c
      (numbered n rest) (pos 0) (rw number updated),
  save_msg_write_opens w.file (numbered n rest) s e,
  number,
)
  where
    clean : Lacks b'\r' (numbered n rest)
    clean =
        Lacks-append b'\r' (to_string (pos n)) (b'/' ∷ rest) (to_string-Lacks b'\r' n (omega arith))
          (omega arith, r)

    number : before_slash (numbered n rest) ≡ to_string (pos n)
    number = before_slash-append (to_string (pos n)) rest (to_string-Lacks b'/' n (omega arith))

    updated :
        update_msg_number (set_slave w c sync_s_commited) (to_string (pos n))
        ≡ ok (record (set_slave w c sync_s_commited) { msg_number = pos n }, pos 0)
    updated = update_msg_number-to_string (set_slave w c sync_s_commited) n h k

-- The outcome of a COMMIT REPLACE by what `save_msg_replace` returns.
pub process_sync_slave_msg-save_msg_replace :
    (w : World) (c : ClientCb) (m : Bytes)
    → turned_away w c ≡ false
    → Lacks b'\r' m
    → process_sync_slave_msg w c (commit_text client_cmd_replace m)
      ≡ ok (
        record (set_slave w c sync_s_commited) { file = (save_msg_replace w.file m).0 },
        replace_answer (save_msg_replace w.file m).1 ++ b' ' ∷ before_slash m,
        pos 0,
      )
unfolding process_sync_slave_msg sync_set_slave_state
process_sync_slave_msg-save_msg_replace w c m t r =
    rw (strip_line-commit_replace m r, slave_msg-replace w c m, t, commit_replace_lem w c m)

-- What the master is told of a REPLACE, by the file that is opened and its lines.
abbrev pub replace_outcome : Option Bytes → Bytes → Bytes
replace_outcome none number = codes "6.1 COMMITED UNSUCCESS"
replace_outcome (some s) number =
    if any_of (λ (l : Line). bytes_eq number (before_slash l.text)) (lines s)
    then codes "6.0 COMMITED SUCCESS"
    else codes "6.2 COMMITED UNSUCCESS UNKNOWN"

save_msg_replace_outcome :
    (f : BbFile) (m : Bytes)
    → replace_answer (save_msg_replace f m).1 ≡ replace_outcome (open_in_out f) (before_slash m)
save_msg_replace_outcome f m = elim (Option-cases (open_in_out f)) [
  | inl e ↦ rw (save_msg_replace_shut f m e, e) refl
  | inr (s, e) ↦
      rw (save_msg_replace-any_of f s m e, e)
        (elim (Bool-cases
          (any_of (λ (l : Line). bytes_eq (before_slash m) (before_slash l.text)) (lines s))) [
            | inl b ↦ rw b refl
            | inr b ↦ rw b refl
          ])
]

-- A slave that has acknowledged the PRECOMMIT, or one at debug level 0 in any state, carries out a
-- COMMIT REPLACE that arrives as `sync_send_commit` has put it together: the file is the one that
-- `save_msg_replace` leaves, and the slave is committed with its timer stopped. The answer is
-- "6.0 COMMITED SUCCESS" when a line of the file has the number of the record, "6.2 COMMITED
-- UNSUCCESS UNKNOWN" when none has, and "6.1 COMMITED UNSUCCESS" when the file cannot be opened for
-- reading and writing, each with that number behind it. The record has no carriage return.
pub process_sync_slave_msg-commit_replace :
    (w : World) (c : ClientCb) (m : Bytes)
    → turned_away w c ≡ false
    → Lacks b'\r' m
    → process_sync_slave_msg w c (commit_text client_cmd_replace m)
      ≡ ok (
        record (set_slave w c sync_s_commited) { file = (save_msg_replace w.file m).0 },
        replace_outcome (open_in_out w.file) (before_slash m) ++ b' ' ∷ before_slash m,
        pos 0,
      )
process_sync_slave_msg-commit_replace w c m t r =
    process_sync_slave_msg-save_msg_replace w c m t r
    ∙ ap {B = Result Reply}
        (λ (a : Bytes). ok (
          record (set_slave w c sync_s_commited) { file = (save_msg_replace w.file m).0 },
          a ++ b' ' ∷ before_slash m,
          pos 0,
        ))
        (save_msg_replace_outcome w.file m)

-- At a debug level of at least 1 a slave that has not acknowledged a PRECOMMIT turns a COMMIT away,
-- WRITE or REPLACE: there is no answer, and nothing changes. The record has no carriage return.
pub process_sync_slave_msg-turned_away :
    (w : World) (c : ClientCb) (m : Bytes)
    → c.slave_state ≢ sync_s_precommit_ack
    → 0 < w.config.debug_level
    → Lacks b'\r' m
    → (process_sync_slave_msg w c (commit_text client_cmd_write m) ≡ ok (w, [], negsuc 0))
      × (process_sync_slave_msg w c (commit_text client_cmd_replace m) ≡ ok (w, [], negsuc 0))
unfolding process_sync_slave_msg
process_sync_slave_msg-turned_away w c m d l r = (
  rw (strip_line-commit_write m r, slave_msg-write w c m, away),
  rw (strip_line-commit_replace m r, slave_msg-replace w c m, away),
)
  where
    away : turned_away w c ≡ true
    away = ground (arith, is_state→eq sync_s_precommit_ack c.slave_state)

stays : (w : World) (c : ClientCb) → w.config.debug_level ≡ 0 → turned_away w c ≡ false
stays w c l = ground arith

-- At debug level 0 what a slave does with a COMMIT, WRITE or REPLACE, does not depend on its state.
-- The record has no carriage return.
pub process_sync_slave_msg_unguarded :
    (w : World) (c : ClientCb) (t : SyncState) (m : Bytes)
    → w.config.debug_level ≡ 0
    → Lacks b'\r' m
    → (process_sync_slave_msg w c (commit_text client_cmd_write m)
        ≡ process_sync_slave_msg w (record c { slave_state = t }) (commit_text client_cmd_write m))
      × (process_sync_slave_msg w c (commit_text client_cmd_replace m)
          ≡ process_sync_slave_msg w
              (record c { slave_state = t })
              (commit_text client_cmd_replace m))
unfolding process_sync_slave_msg
process_sync_slave_msg_unguarded w c t m l r =
    let d = record c { slave_state = t } in
    (
      rw
          (
            strip_line-commit_write m r,
            slave_msg-write w c m,
            slave_msg-write w d m,
            stays w c l,
            stays w d l,
          )
          (unfold commit_write in refl),
      rw
          (
            strip_line-commit_replace m r,
            slave_msg-replace w c m,
            slave_msg-replace w d m,
            stays w c l,
            stays w d l,
          )
          (unfold commit_replace in refl),
    )
