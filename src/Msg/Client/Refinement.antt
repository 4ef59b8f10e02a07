-- ===== src/Msg/Client/Refinement.antt =====
-- Without peers the commands of the users are those of a board that is a list of messages.
pub mod Sessions
use bbserver.Base.{
  Each, bind-Each, bind_any, weaken, if-Each, branch-Each, if-any, ℕ, zero, suc, ◌+◌, ◌-◌, ◌*◌, ◌/◌,
  ◌%◌, ◌^◌, ◌≤◌, ◌<◌, ◌≡◌, refl, sym, ap, ◌∙◌, ◌≢◌, ◌↔◌, ◌⊎◌, inl, inr, Bool, true, false, not,
  ◌&&◌, ◌||◌, Option, none, some, List, [], ◌∷◌, ◌++◌, map, append-nil, append_assoc, arith, ltb,
  leb, ◌==◌, if◌then◌else◌, ltb→lt, lt→ltb, ==_iff, ==_refl, Bool-cases, Option-cases, length,
  get_elem?, take, drop, replicate, any_of, all_of, count_of, first_of_list, length-append,
  take-append, drop-append, length-replicate, All, Bytes, codes, bytes_eq, bytes_eq_refl,
  bytes_eq→eq, Lacks, Lacks-append, Fault, out_of_range, invalid_argument, undefined, spinning,
  blocked, exited, Result, ok, err, ◌>>=◌, deref, ℤ, pos, negsuc, int_max, eq_ℤ, is_neg, is_pos,
  eq_ℤ_iff, eq_ℤ_refl,
}
use bbserver.Text.{to_string, find}
use bbserver.Text.Decimal.{to_string-Lacks}
use bbserver.Text.Search.{find-append}
use bbserver.Types.{ClientCb, client_cmd_replace}
use bbserver.World.{World, Os}
use bbserver.Board.{
  BbFile, endl, open_in, open_app, open_in_out, read_msg, save_msg_write, save_msg_replace,
}
use bbserver.Board.Replace.{drop_plus}
use bbserver.Board.Abstract.{
  Entry, message, board_text, lookup, put, IsEntry, read_answer, read_msg-lookup, fresh_entry,
  board_text-fresh,
}
use bbserver.Board.Abstract.Put.{put_result, HasRoom, put-IsEntry, save_msg_replace-put}
use bbserver.MsgNumber.Alloc.{next_number, alloc_new_msg_number-next}
use bbserver.Msg.Client.{
  Reply, record_of, user_name, with_argument, command, write_with, write_command, replace_with,
  replace_command, process_client_msg, replaced, save_replace, start_sync,
}
use bbserver.Msg.Client.Parse.{command_line, process_client_msg-line}
use bbserver.Msg.Client.RoundTrip.{
  with_argument-write, with_argument-read, name-Lacks, write_with-saves,
}

-- The board, with the number given out last.
pub record Bulletin : Type 0 where
  pub entries : List Entry
  pub last : ℕ

pub data Request : Type 0 where
  reads : Bytes → Request
  writes : Bytes → Request
  replaces : Bytes → Bytes → Request

-- What stands behind the number of a message of the client.
abbrev pub signed_by : ClientCb → Bytes → Bytes
signed_by c body = user_name c.name ++ b'/' ∷ body

abbrev pub put_answer : Bytes → Option Entry → Bytes
put_answer number none = codes "3.1 UNKNOWN " ++ number
put_answer number (some e) = codes "3.3 REPLACED " ++ number

-- The board after a request of the client, and the answer.
unfoldable pub serve : Bulletin → ClientCb → Request → Bulletin × Bytes
serve b c (reads number) = (b, read_answer number (lookup number b.entries))
serve b c (writes body) =
    let number = to_string (pos (next_number b.last)) in
    (
      record {
        entries = b.entries ++ fresh_entry number (signed_by c body) ∷ [];
        last = next_number b.last;
      },
      codes "3.0 WROTE " ++ number,
    )
serve b c (replaces number body) = (
  record b { entries = put number (signed_by c body) b.entries },
  put_answer number (lookup number b.entries),
)

-- The line that a client sends.
abbrev pub request_line : Request → Bytes
request_line (reads number) = command_line (codes "READ") number
request_line (writes body) = command_line (codes "WRITE") body
request_line (replaces number body) = command_line (codes "REPLACE") (number ++ b'/' ∷ body)

-- Something to read, to write or to put; no line end in it or in the name; for REPLACE a number
-- without a slash, and room.
abbrev pub IsAllowed : Bulletin → ClientCb → Request → Type 0
IsAllowed b c (reads number) = 0 < length number
IsAllowed b c (writes body) = (0 < length body) × Lacks b'\n' body × Lacks b'\n' c.name
IsAllowed b c (replaces number body) =
    (0 < length body)
    × Lacks b'\n' body
    × Lacks b'\n' c.name
    × Lacks b'/' number
    × HasRoom number (signed_by c body) (lookup number b.entries)

-- The world without peers that has the board in its file, which can be read and written.
pub record Holds (b : Bulletin) (w : World) : Type 0 where
  pub number : w.msg_number ≡ pos b.last
  pub small : b.last < int_max
  pub alone : w.config.sync_enable ≡ false
  pub content : w.file.content ≡ some (board_text b.entries)
  pub readable : w.file.readable ≡ true
  pub writable : w.file.writable ≡ true
  pub messages : All IsEntry b.entries

signed_by-Lacks :
    (c : ClientCb) (body : Bytes)
    → Lacks b'\n' body
    → Lacks b'\n' c.name
    → Lacks b'\n' (signed_by c body)
signed_by-Lacks c body l n =
    Lacks-append b'\n' (user_name c.name) (b'/' ∷ body) (name-Lacks c n) (omega arith, l)

-- What the handler returns: the answer, and a world that holds the board.
abbrev pub Serves : Result Reply → Bulletin × Bytes → Type 0
Serves r s = (v : World) × (r ≡ ok (v, s.1)) × Holds s.0 v

All-end : (P : Entry → Type 0) (b : List Entry) (e : Entry) → All P b → P e → All P (b ++ e ∷ [])
All-end P [] e h p = (p, tt)
All-end P (d ∷ b) e h p = (h.0, All-end P b e h.1 p)

replaced-put_result :
    (number : Bytes) (o : Option Entry) → replaced number (put_result o) ≡ put_answer number o
replaced-put_result number none = refl
replaced-put_result number (some e) = refl

with_argument-replace :
    (os : Os) (w : World) (c : ClientCb) (number body : Bytes)
    → Lacks b'/' number
    → 0 < length body
    → w.config.sync_enable ≡ false
    → with_argument os w c (codes "REPLACE") (number ++ b'/' ∷ body)
      ≡ ok (save_replace w (record_of number c body) number)
unfolding with_argument command replace_command replace_with
with_argument-replace os w c number body slash l off =
    let some_arg : (length (number ++ b'/' ∷ body) == 0) ≡ false =
      ground (arith, length-append number (b'/' ∷ body)) in
    let some_body : (length body == 0) ≡ false = ground (arith, l) in
    rw (some_arg, find-append b'/' number body slash, replace_command)
      (rw (take-append number (b'/' ∷ body), drop_plus number (b'/' ∷ body) 1, some_body)
        (ap
          (λ b.
            if b
            then start_sync os w c client_cmd_replace (record_of number c body)
            else ok (save_replace w (record_of number c body) number))
          off))

module _ (os : Os) (w : World) (c : ClientCb) (b : Bulletin) (h : Holds b w) where
  pub read-Serves :
      (number : Bytes)
      → 0 < length number
      → Serves (with_argument os w c (codes "READ") number) (serve b c (reads number))
  unfolding serve
  read-Serves [] l = absurd (omega (arith, l))
  read-Serves (x ∷ number) l = (
    w,
    with_argument-read os w c x number
        ∙ ap (λ s. ok (w, s))
            (read_msg-lookup w.file b.entries (x ∷ number) (rw (h.readable, h.content) refl)
              h.messages),
    h,
  )

  pub write-Serves :
      (body : Bytes)
      → IsAllowed b c (writes body)
      → Serves (with_argument os w c (codes "WRITE") body) (serve b c (writes body))
  unfolding serve write_command
  write-Serves [] (l, lacks, name) = absurd (omega (arith, l))
  write-Serves (x ∷ body) (l, lacks, name) =
      let n = next_number b.last in
      let number = to_string (pos n) in
      let text = signed_by c (x ∷ body) in
      let (alloc, positive, small) = alloc_new_msg_number-next w b.last h.number h.small in
      let v : World = record w {
        msg_number = pos n;
        file = record w.file {
          content = some (board_text b.entries ++ (record_of number c (x ∷ body) ++ endl));
        };
      } in
      (
        v,
        with_argument-write os w c x body
            ∙ rw alloc (
                write_with-saves os (record w { msg_number = pos n }) c number
                  (board_text b.entries) (x ∷ body) h.alone h.content h.writable),
        record {
          number = refl;
          small = small;
          alone = h.alone;
          content = ap some (board_text-fresh b.entries number text);
          readable = h.readable;
          writable = h.writable;
          messages = All-end IsEntry b.entries (fresh_entry number text) h.messages (record {
            slash = to_string-Lacks b'/' n (omega arith);
            number = to_string-Lacks b'\n' n (omega arith);
            text = signed_by-Lacks c (x ∷ body) lacks name;
            fits = omega arith;
          });
        },
      )

  pub replace-Serves :
      (number body : Bytes)
      → IsAllowed b c (replaces number body)
      → Serves
          (with_argument os w c (codes "REPLACE") (number ++ b'/' ∷ body))
          (serve b c (replaces number body))
  unfolding serve
  replace-Serves number body (l, lacks, name, slash, room) =
      let text = signed_by c body in
      let o = lookup number b.entries in
      let put_it =
        save_msg_replace-put w.file number text b.entries
          (rw (h.readable, h.writable, h.content) refl) h.messages slash room in
      let v : World = record w {
        file = record w.file { content = some (board_text (put number text b.entries)) };
      } in
      (
        v,
        with_argument-replace os w c number body slash l h.alone
            ∙ ap (λ (r : BbFile × ℤ). ok (record w { file = r.0 }, replaced number r.1)) put_it
            ∙ ap (λ s. ok (v, s)) (replaced-put_result number o),
        record {
          number = h.number;
          small = h.small;
          alone = h.alone;
          content = refl;
          readable = h.readable;
          writable = h.writable;
          messages =
              put-IsEntry number text b.entries (signed_by-Lacks c body lacks name) room h.messages;
        },
      )
