-- ===== src/Tx/Tests.antt =====
-- coremodel.c: the transmit queue on concrete packets.
use coremodel.Base.{◌≡◌, refl, List, [], ◌∷◌, arith}
use coremodel.Socket.{Answer, drained, moved, eintr, failed}
use coremodel.Tx.{TxBuf, write_loop}
use coremodel.Tx.Flow.{AllQueued, Sent, pending, write_loop-Sent, write_loop_drains}

-- A buffer of which three bytes are gone, and a whole one.
abbrev queue : List TxBuf
queue =
    record { size = 8; rptr = 3; buf = 8 ∷ 0 ∷ 1 ∷ 0 ∷ 2 ∷ 0 ∷ 7 ∷ 0 ∷ [] }
    ∷ record { size = 8; rptr = 0; buf = 8 ∷ 0 ∷ 1 ∷ 0 ∷ 3 ∷ 0 ∷ 0 ∷ 0 ∷ [] }
    ∷ []

queue-AllQueued : AllQueued queue
queue-AllQueued = (
  record { sized = refl; unsent = omega arith },
  (record { sized = refl; unsent = omega arith }, tt),
)

write_loop-Sent_example :
    Sent queue (write_loop (moved 1 ∷ eintr ∷ moved 9 ∷ moved 3 ∷ failed 32 ∷ []) queue)
write_loop-Sent_example =
    write_loop-Sent (moved 1 ∷ eintr ∷ moved 9 ∷ moved 3 ∷ failed 32 ∷ []) queue queue-AllQueued

-- One byte for each call, with a signal in between.
abbrev slow : List Answer
slow =
    eintr
    ∷ moved 0
    ∷ moved 0
    ∷ moved 0
    ∷ moved 0
    ∷ moved 0
    ∷ eintr
    ∷ moved 0
    ∷ moved 0
    ∷ moved 0
    ∷ moved 0
    ∷ moved 0
    ∷ moved 0
    ∷ moved 0
    ∷ moved 0
    ∷ []

write_loop_drains_example : write_loop slow queue ≡ (drained, pending queue, [])
write_loop_drains_example = write_loop_drains slow queue queue-AllQueued tt (omega arith)
