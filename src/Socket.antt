-- ===== src/Socket.antt =====
-- The connection as `coremodel_processfds` sees it through read(2) and write(2).
use coremodel.Base.{ℕ}

-- What one call answers: it moves up to `suc n` bytes, or none since the other end has closed, or
-- it fails with an error number.
pub data Answer : Type 0 where
  moved : ℕ → Answer
  eof : Answer
  eintr eagain : Answer
  failed : ℕ → Answer

-- How a loop over such calls ends: with the connection open, or closed with an error number.
pub data End : Type 0 where
  drained : End
  closed : ℕ → End

abbrev pub econnreset : ℕ
econnreset = 104
