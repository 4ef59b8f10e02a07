-- ===== src/Msg/Client/Parse.antt =====
-- How a command line is taken apart.
use bbserver.Base.{
  suc, ◌+◌, ◌-◌, ◌^◌, ◌<◌, ◌≡◌, sym, ap, ◌∙◌, false, some, [], ◌∷◌, ◌++◌, append_assoc, arith, ltb,
  length, get_elem?, length-append, take-append, Bytes, Lacks, ok,
}
use bbserver.Text.Search.{find-append}
use bbserver.Types.{ClientCb}
use bbserver.World.{World, Os}
use bbserver.Board.Replace.{drop_plus}
use bbserver.Msg.Strip.{byte_of, get_elem?_last}
use bbserver.Msg.Client.{size_sub, argument, with_argument, process_client_msg}

abbrev pub crlf : Bytes
crlf = b'\r' ∷ b'\n' ∷ []

-- A command line as telnet sends it.
abbrev pub command_line : Bytes → Bytes → Bytes
command_line word arg = word ++ b' ' ∷ (arg ++ crlf)

module _ (word arg : Bytes) where
  abbrev line : Bytes
  line = command_line word arg

  length-line : length line ≡ suc (suc (length (word ++ b' ' ∷ arg)))
  length-line = omega (
    arith,
    length-append word (b' ' ∷ (arg ++ crlf)),
    length-append arg crlf,
    length-append word (b' ' ∷ arg),
  )

  before_last : get_elem? line (length line - 2) ≡ some b'\r'
  before_last =
      ap (get_elem? line)
        (let e : length line - 2 ≡ length (word ++ b' ' ∷ arg) = omega (arith, length-line) in e)
      ∙ ap (λ s. get_elem? s (length (word ++ b' ' ∷ arg))) (sym append_assoc')
      ∙ get_elem?_last (word ++ b' ' ∷ arg) b'\r' b'\n'
    where
      append_assoc' : (word ++ b' ' ∷ arg) ++ crlf ≡ line
      append_assoc' = append_assoc word (b' ' ∷ arg) crlf

  argument-line : length line < 2 ^ 64 → argument line (length word) ≡ ok arg
  unfolding argument
  argument-line h =
      let long : ltb (length line) 2 ≡ false = ground (arith, length-line) in
      let rest : size_sub (length line) (length word + 3) ≡ length arg =
        omega (arith, length-append word (b' ' ∷ (arg ++ crlf)), length-append arg crlf) in
      let fits : ltb (length line) (length word + 1) ≡ false =
        ground (arith, length-append word (b' ' ∷ (arg ++ crlf))) in
      rw (
        long,
        ap byte_of before_last,
        fits,
        rest,
        drop_plus word (b' ' ∷ (arg ++ crlf)) 1,
        take-append arg crlf,
      )

  -- A line of a word, a space, an argument and \r\n comes to the command of that word with that
  -- argument. The word holds no space, and the length is a size_t.
  pub process_client_msg-line :
      (os : Os) (w : World) (c : ClientCb)
      → Lacks b' ' word
      → length line < 2 ^ 64
      → process_client_msg os w c line ≡ with_argument os w c word arg
  unfolding process_client_msg
  process_client_msg-line os w c s h = rw (
    find-append b' ' word (arg ++ crlf) s,
    process_client_msg,
    argument-line h,
    take-append word (b' ' ∷ (arg ++ crlf)),
  )
