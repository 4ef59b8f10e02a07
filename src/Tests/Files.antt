-- ===== src/Tests/Files.antt =====
-- The file at concrete messages.
use bbserver.Base.{◌≡◌, refl, [], ◌++◌, arith, codes, pos}
use bbserver.Board.{save_msg_replace}
use bbserver.Board.Replace.{
  save_msg_replace_fits, save_msg_replace_overruns, save_msg_replace_open_end,
}
use bbserver.Tests.{one_message, two_message, board_file, board}

save_msg_replace_fits_example :
    save_msg_replace board (codes "1/ann/x") ≡ (board_file (codes "1/ann/x \n2/bob/yo\n"), pos 0)
save_msg_replace_fits_example =
    save_msg_replace_fits board [] one_message (two_message ++ codes "\n") (codes "1/ann/x") refl tt
      (omega arith) tt refl (omega arith)

-- the number of the second message is lost
save_msg_replace_overruns_example :
    save_msg_replace board (codes "1/ann/hiya") ≡ (board_file (codes "1/ann/hiya/bob/yo\n"), pos 0)
save_msg_replace_overruns_example =
    save_msg_replace_overruns board [] one_message (two_message ++ codes "\n") (codes "1/ann/hiya")
      refl tt (omega arith) tt refl (omega arith)

save_msg_replace_open_end_example :
    save_msg_replace (board_file one_message) (codes "1/ann/x") ≡ (board_file one_message, pos 0)
save_msg_replace_open_end_example =
    save_msg_replace_open_end (board_file one_message) [] b'1' (codes "/ann/hi") (codes "1/ann/x")
      refl tt (omega arith) tt refl
