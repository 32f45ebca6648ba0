-- ===== src/Message.antt =====
-- The texts that `fmt.Sprintf` builds for status messages and Events, as the pieces they are
-- joined from: `%q` marks a piece that `strconv.Quote` writes, and stays a mark here.
use kvsynk8s.Base.{String, List}

pub data Piece : Type 0 where
  -- text of the format, or `%s`
  text : String → Piece
  -- `%q`
  quoted : String → Piece

abbrev pub Message : Type 0
Message = List Piece
