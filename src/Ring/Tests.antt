-- ===== src/Ring/Tests.antt =====
-- coremodel.c: the receive ring on concrete bytes.
use coremodel.Base.{
  ◌%◌, take, drop, ℕ, ◌≡◌, refl, ◌⊎◌, ◌++◌, Bool, false, List, [], ◌∷◌, none, some, arith, rd16,
}
use coremodel.Packet.{Packet, decode, wires}
use coremodel.Socket.{Answer, moved, eof, eintr, eagain}
use coremodel.Ring.{Ring, window, blit, frame, process_rxq, read_loop, serve}
use coremodel.Ring.Window.{IsValid, contents}
use coremodel.Ring.Stream.{run, view, process_rxq_refines, HasShort, Consumed, process_rxq-Consumed}
use coremodel.Ring.Delivery.{no_short}
use coremodel.Ring.Frames.{IsSendable, AllSendable}
use coremodel.Ring.Fill.{Received, read_loop-Received}
use coremodel.Ring.Rounds.{Progress, serve_in_order}
use coremodel.Ring.Endless.{HasEmpty, process_rxq_ends, process_rxq_endless}

abbrev hello : Packet
hello = record { len = 10; conn = 1; pkt = 0; bflag = 0; hflag = 0; payload = 5 ∷ 6 ∷ [] }

abbrev ack : Packet
ack = record { len = 8; conn = 1; pkt = 2; bflag = 0; hflag = 7; payload = [] }

abbrev sent : List Packet
sent = hello ∷ ack ∷ hello ∷ []

-- The payloads that were processed.
abbrev collect : Packet → List ℕ → Bool × List ℕ
collect p s = (false, s ++ (p.len ∷ p.payload))

abbrev Any : List ℕ → Type 0
Any s = Unit {0}

never_fails : (p : Packet) (s : List ℕ) → Any s → ((collect p s).0 ≡ false) × Any (collect p s).1
never_fails p s g = (refl, g)

-- The next byte goes to the last four of the array.
abbrev near_end : Ring
near_end = record { rxq = λ i. 0; rxqwp = 4092; rxqrp = 4092 }

-- Sixteen bytes of zeros are there, round the end.
abbrev of_zeros : Ring
of_zeros = record { rxq = λ i. 0; rxqwp = 4108; rxqrp = 4092 }

near_end-IsValid : IsValid near_end
near_end-IsValid = record {
  wp_fits = omega arith;
  rp_fits = omega arith;
  bounded = omega arith;
  aligned = refl;
}

of_zeros-IsValid : IsValid of_zeros
of_zeros-IsValid = record {
  wp_fits = omega arith;
  rp_fits = omega arith;
  bounded = omega arith;
  aligned = refl;
}

hello-IsSendable : IsSendable hello
hello-IsSendable = record {
  formed = record {
    len_fits = omega arith;
    conn_fits = omega arith;
    hflag_fits = omega arith;
    sized = refl;
  };
  short = omega arith;
}

ack-IsSendable : IsSendable ack
ack-IsSendable = record {
  formed = record {
    len_fits = omega arith;
    conn_fits = omega arith;
    hflag_fits = omega arith;
    sized = refl;
  };
  short = omega arith;
}

sent-AllSendable : AllSendable sent
sent-AllSendable = (hello-IsSendable, (ack-IsSendable, (hello-IsSendable, tt)))

nothing_there : contents near_end ++ wires sent ≡ wires sent
unfolding window
nothing_there = refl

-- Three bytes, then a signal, then whatever is there.
abbrev calls : List (List Answer)
calls = (moved 2 ∷ eintr ∷ moved 8 ∷ []) ∷ (moved 5 ∷ eagain ∷ []) ∷ (moved 99 ∷ []) ∷ []

two_reads : (read_loop (moved 2 ∷ []) (1 ∷ 2 ∷ 3 ∷ 4 ∷ 5 ∷ []) near_end).1 ≡ 4 ∷ 5 ∷ []
unfolding read_loop
two_reads = refl

serve_in_order_example :
    (stream' : List ℕ) × (r' : Ring) × (s' : List ℕ) × (serve collect 4 calls
        (wires sent)
        near_end
        []
      ≡ some (stream', r', s'))
    × Progress collect Any sent [] stream' r' s'
serve_in_order_example =
    serve_in_order collect Any never_fails 4 calls sent (wires sent) {r = near_end} []
      near_end-IsValid sent-AllSendable tt (omega arith) nothing_there

-- The ring with the three packets in it, the first one round the end.
abbrev filled : Ring
filled = record {
  rxq = blit (blit (λ i. 0) 4092 (take 4 (wires sent))) 0 (drop 4 (wires sent));
  rxqwp = 4124;
  rxqrp = 4092;
}

filled-IsValid : IsValid filled
filled-IsValid = record {
  wp_fits = omega arith;
  rp_fits = omega arith;
  bounded = omega arith;
  aligned = refl;
}

contents-filled : contents filled ++ [] ≡ wires sent
unfolding window blit wires
contents-filled = refl

filled-whole : HasShort 4092 (contents filled) → ⊥
filled-whole = no_short sent [] sent-AllSendable contents-filled

abbrev emptied : Ring
emptied = record filled { rxqrp = 4124 }

processed : process_rxq collect 4 filled [] ≡ some (emptied, 10 ∷ 5 ∷ 6 ∷ 8 ∷ 10 ∷ 5 ∷ 6 ∷ [])
unfolding process_rxq blit wires decode
processed = refl

process_rxq_refines_example :
    view (process_rxq collect 4 filled []) ≡ run collect 4 (contents filled) []
process_rxq_refines_example =
    process_rxq_refines collect 4 {r = filled} [] filled-IsValid filled-whole

process_rxq-Consumed_example : Consumed filled emptied
process_rxq-Consumed_example = process_rxq-Consumed collect 4 [] filled-IsValid processed

-- A packet of four bytes in the last four of the array: its connection is read from there, and its
-- type from the write index behind the array.
abbrev short_at_end : Ring
short_at_end = record { rxq = blit (λ i. 7) 4092 (4 ∷ 0 ∷ 1 ∷ 0 ∷ []); rxqwp = 4100; rxqrp = 4092 }

index_as_type : (decode (frame short_at_end 4)).pkt ≡ 4100 % 256
unfolding frame decode
index_as_type = refl

read_loop-Received_example :
    Received
      (wires sent)
      near_end
      (read_loop (moved 2 ∷ eintr ∷ moved 8 ∷ eof ∷ []) (wires sent) near_end)
read_loop-Received_example =
    read_loop-Received (moved 2 ∷ eintr ∷ moved 8 ∷ eof ∷ []) (wires sent) {r = near_end}
      near_end-IsValid

process_rxq_ends_example :
    ((y : Ring × List ℕ) × (process_rxq collect 1025 of_zeros [] ≡ some y))
    ⊎ HasEmpty (contents of_zeros)
process_rxq_ends_example = process_rxq_ends collect {r = of_zeros} [] of_zeros-IsValid

zero_length : rd16 (contents of_zeros) 0 ≡ 0
unfolding window
zero_length = refl

process_rxq_endless_example : process_rxq collect 5 of_zeros [] ≡ none
process_rxq_endless_example =
    process_rxq_endless collect Any never_fails 5 {r = of_zeros} [] of_zeros-IsValid tt
      (omega arith) zero_length
