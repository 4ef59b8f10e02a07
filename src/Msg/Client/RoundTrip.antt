-- ===== src/Msg/Client/RoundTrip.antt =====
-- A message that is written is read back.
use bbserver.Base.{
  ℕ, suc, ◌^◌, ◌<◌, ◌≡◌, ap, ◌∙◌, true, false, some, List, [], ◌∷◌, ◌++◌, arith, ◌==◌, length,
  length-append, All, Bytes, codes, Lacks, Lacks-append, ok, pos, int_max,
}
use bbserver.Text.{to_string}
use bbserver.Text.Decimal.{to_string-Lacks, to_string-cons, length-to_string}
use bbserver.Types.{ClientCb}
use bbserver.World.{World, Os}
use bbserver.Board.{endl, read_msg, save_msg_write}
use bbserver.Board.Lines.{unlines, Skipped, read_msg_first}
use bbserver.MsgNumber.Alloc.{next_number, alloc_new_msg_number-next}
use bbserver.Msg.Client.{
  record_of, user_name, with_argument, command, write_with, write_command, process_client_msg,
}
use bbserver.Msg.Client.Parse.{command_line, process_client_msg-line}

pub with_argument-write :
    (os : Os) (w : World) (c : ClientCb) (b : ℕ) (body : Bytes)
    → with_argument os w c (codes "WRITE") (b ∷ body) ≡ write_command os w c (b ∷ body)
unfolding with_argument command
with_argument-write os w c b body = let e : (suc (length body) == 0) ≡ false = ground arith in rw e

pub with_argument-read :
    (os : Os) (w : World) (c : ClientCb) (b : ℕ) (number : Bytes)
    → with_argument os w c (codes "READ") (b ∷ number) ≡ ok (w, read_msg w.file (b ∷ number))
unfolding with_argument command
with_argument-read os w c b number =
    let e : (suc (length number) == 0) ≡ false = ground arith in rw e

-- The world after a WRITE with the number `n`.
abbrev pub written : World → ClientCb → ℕ → List Bytes → Bytes → World
written w c n ls body = record w {
  msg_number = pos n;
  file = record w.file {
    content = some (unlines ls ++ (record_of (to_string (pos n)) c body ++ endl));
  };
}

pub write_with-saves :
    (os : Os) (w : World) (c : ClientCb) (number s arg : Bytes)
    → w.config.sync_enable ≡ false
    → w.file.content ≡ some s
    → w.file.writable ≡ true
    → write_with os w c number arg
      ≡ ok (
        record w {
          file = record w.file { content = some (s ++ (record_of number c arg ++ endl)) };
        },
        codes "3.0 WROTE " ++ number,
      )
unfolding write_with save_msg_write
write_with-saves os w c number s arg off e h = rw (off, e, h)

read_back :
    (os : Os) (v : World) (d : ClientCb) (n : ℕ) (answer : Bytes)
    → n < int_max
    → read_msg v.file (to_string (pos n)) ≡ answer
    → process_client_msg os v d (command_line (codes "READ") (to_string (pos n))) ≡ ok (v, answer)
read_back os v d n answer h e =
    let (b, t, f) = to_string-cons n in
    process_client_msg-line (codes "READ") (to_string (pos n)) os v d (omega arith)
      (omega (arith, length-append (to_string (pos n)) (b'\r' ∷ b'\n' ∷ []), length-to_string n))
    ∙ rw f (with_argument-read os v d b t ∙ ap (λ s. ok (v, s)) (rw f at e))

pub name-Lacks : (c : ClientCb) → Lacks b'\n' c.name → Lacks b'\n' (user_name c.name)
name-Lacks c h = name_lacks c.name h
  where
    name_lacks : (s : Bytes) → Lacks b'\n' s → Lacks b'\n' (user_name s)
    name_lacks [] h = omega arith
    name_lacks (x ∷ s) h = h

-- Without peers, a WRITE of a message of at least one byte answers "3.0 WROTE" with the next
-- number, and a READ of that number, by whatever client, then answers "2.0 MESSAGE" with the
-- record: the number, the name of the client that wrote, and the message. The file can be read and
-- written, consists of closed lines, and none of them has the number; the message and the name hold
-- no line end.
pub process_client_msg-write_read :
    (os : Os) (w : World) (c d : ClientCb) (k : ℕ) (ls : List Bytes) (b : ℕ) (body : Bytes)
    → w.msg_number ≡ pos k
    → k < int_max
    → w.config.sync_enable ≡ false
    → w.file.content ≡ some (unlines ls)
    → w.file.readable ≡ true
    → w.file.writable ≡ true
    → All (Lacks b'\n') ls
    → All (Skipped (to_string (pos (next_number k)))) ls
    → Lacks b'\n' c.name
    → Lacks b'\n' (b ∷ body)
    → length (command_line (codes "WRITE") (b ∷ body)) < 2 ^ 64
    → let number = to_string (pos (next_number k)) in
      let v = written w c (next_number k) ls (b ∷ body) in
      (process_client_msg os w c (command_line (codes "WRITE") (b ∷ body))
        ≡ ok (v, codes "3.0 WROTE " ++ number))
      × (process_client_msg os v d (command_line (codes "READ") number)
          ≡ ok (v, codes "2.0 MESSAGE " ++ record_of number c (b ∷ body)))
unfolding write_command
process_client_msg-write_read os w c d k ls b body e lt off content readable writable closed skipped
      name one size =
    let n = next_number k in
    let (alloc, positive, small) = alloc_new_msg_number-next w k e lt in
    let number = to_string (pos n) in
    (
      process_client_msg-line (codes "WRITE") (b ∷ body) os w c (omega arith) size
          ∙ with_argument-write os w c b body
          ∙ rw alloc (
              write_with-saves os (record w { msg_number = pos n }) c number (unlines ls) (b ∷ body)
                off content writable),
      read_back os (written w c n ls (b ∷ body)) d n _ small (
          read_msg_first (written w c n ls (b ∷ body)).file ls number
            (user_name c.name ++ b'/' ∷ (b ∷ body)) [] (rw readable) closed skipped
            (to_string-Lacks b'/' n (omega arith))
            (Lacks-append b'\n' number (b'/' ∷ (user_name c.name ++ b'/' ∷ (b ∷ body)))
              (to_string-Lacks b'\n' n (omega arith))
              (
                omega arith,
                Lacks-append b'\n' (user_name c.name) (b'/' ∷ (b ∷ body)) (name-Lacks c name)
                    (omega arith, one),
              ))),
    )
