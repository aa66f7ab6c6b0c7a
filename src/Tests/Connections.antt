-- ===== src/Tests/Connections.antt =====
-- Two ends of one connection: a client that sends a number, and a server that receives it.
use disk_tees.Prelude.{
  map, ℕ, ◌≤◌, ◌<◌, ◌%◌, ◌^◌, pos, leb_ℤ, ◌≡◌, refl, some, List, [], ◌∷◌, ◌++◌, Bytes, codes,
  eqb_str, length, take, ok, arith,
}
use disk_tees.Shared.StrMap.{find_str}
use disk_tees.Shared.Convert.{narrow}
use disk_tees.Shared.Tls.{Tls, zeros}
use disk_tees.Shared.Tls.Send.{write_frame, write_to, send}
use disk_tees.Shared.Tls.Io.{blocking_write, blocking_read}
use disk_tees.Shared.Tls.Loop.{recv}
use disk_tees.Shared.Tls.Streams.{concat, AreFull, read_chunks}
use disk_tees.Shared.Tls.Writing.{frame}
use disk_tees.Shared.Tls.Fifo.{send_many, recv_many, Fits, fifo}
use disk_tees.Shared.Tls.Framing.{recv-send}
use disk_tees.Shared.Tls.Bounds.{send_bounds}
use disk_tees.Tests.Pipe.{
  Pipe, whole, write_some, pipe, still, int_bytes, plain, numbers, plain-IsPlatform,
  numbers-IsCodec, pipe-IsReading, pipe-IsWriting, pipe-RefusesNegative,
}

abbrev pub sender : Tls Pipe
sender = record {
  read_buffer = zeros 8192;
  open_sockets = pos 3 ∷ [];
  server_socket = pos 0;
  ssl_from_addr = (codes "a", 1) ∷ [];
  ssl_from_socket = (pos 3, 1) ∷ [];
  addr_from_socket = (pos 3, codes "a") ∷ [];
  socket_from_addr = (codes "a", pos 3) ∷ [];
  round_robin_index = 0;
  world = record { inbox = []; outbox = [] };
}

abbrev sent : Tls Pipe
sent = record sender {
  world = record { inbox = []; outbox = frame {W = Pipe} plain whole (7 ∷ []) };
}

abbrev receiver : Tls Pipe
receiver = record sender {
  world = record { inbox = frame {W = Pipe} plain whole (7 ∷ []); outbox = [] };
}

send_number : send pipe still plain numbers 3 7 (codes "a") sender ≡ ok sent
unfolding send write_to write_frame blocking_write write_some narrow frame whole find_str eqb_str
    leb_ℤ int_bytes
send_number = refl

recv-send_example :
    (w : Pipe) × (buffer : Bytes) × (recv pipe still plain numbers 3 (pos 3) 1 receiver
      ≡ ok (some 7, record receiver { read_buffer = buffer; world = w }))
    × (w.inbox ≡ [])
    × (length receiver.read_buffer ≤ length buffer)
unfolding frame whole find_str eqb_str
recv-send_example =
    recv-send pipe still plain numbers 3 (λ ssl p. p.outbox) (λ ssl p. p.inbox) whole pipe-IsWriting
      pipe-IsReading plain-IsPlatform numbers-IsCodec 7 (7 ∷ []) (codes "a") 1 1 (pos 3) sender sent
      receiver (frame {W = Pipe} plain whole (7 ∷ [])) [] refl (omega arith) (omega arith) refl
      send_number refl refl

read_chunks_example :
    (w : Pipe) × (blocking_read pipe still 3
        (pos 3)
        1
        (pos 3)
        []
        (record { inbox = (1 ∷ []) ∷ (2 ∷ 3 ∷ []) ∷ []; outbox = [] })
      ≡ ok ([] ++ concat ((1 ∷ []) ∷ (2 ∷ 3 ∷ []) ∷ []), w))
    × (w.inbox ≡ [])
unfolding concat AreFull
read_chunks_example =
    read_chunks pipe still (λ ssl p. p.inbox) pipe-IsReading 3 (pos 3) 1 3 []
      (record { inbox = (1 ∷ []) ∷ (2 ∷ 3 ∷ []) ∷ []; outbox = [] }) ((1 ∷ []) ∷ (2 ∷ 3 ∷ []) ∷ [])
      [] (λ e. cc, (λ e. cc, tt)) refl refl (omega arith)

abbrev both : List (ℕ × Bytes)
both = (7, 7 ∷ []) ∷ (9, 9 ∷ []) ∷ []

abbrev two_frames : List Bytes
two_frames = frame {W = Pipe} plain whole (7 ∷ []) ++ frame {W = Pipe} plain whole (9 ∷ [])

abbrev sent_both : Tls Pipe
sent_both = record sender { world = record { inbox = []; outbox = two_frames } }

abbrev receiver_of_both : Tls Pipe
receiver_of_both = record sender { world = record { inbox = two_frames; outbox = [] } }

send_both :
    send_many pipe still plain numbers 3 (map (λ p. p.0) both) (codes "a") sender ≡ ok sent_both
unfolding send_many send write_to write_frame blocking_write write_some narrow frame whole find_str
    eqb_str leb_ℤ int_bytes
send_both = refl

fifo_example :
    (u : Tls Pipe) × (recv_many pipe still plain numbers 3 2 (pos 3) 1 receiver_of_both
      ≡ ok (map (λ p. p.0) both, u))
    × (u.world.inbox ≡ [])
unfolding frame whole find_str eqb_str Fits
fifo_example =
    fifo pipe still plain numbers 3 whole (λ ssl p. p.outbox) (λ ssl p. p.inbox) pipe-IsWriting
      pipe-IsReading plain-IsPlatform numbers-IsCodec both (codes "a") 1 1 (pos 3) sender sent_both
      receiver_of_both two_frames []
      ((refl, omega arith, omega arith), ((refl, omega arith, omega arith), tt)) refl send_both refl
      refl

-- The data of one number is one byte.
send_bounds_example :
    (1 % 2 ^ 32 < 2 ^ 31)
    × (sent.world.outbox ≡ [] ++ frame {W = Pipe} plain whole (take (1 % 2 ^ 32) (7 ∷ [])))
unfolding find_str eqb_str
send_bounds_example =
    send_bounds pipe still plain numbers 3 pipe-RefusesNegative (λ ssl p. p.outbox) whole
      pipe-IsWriting plain-IsPlatform 7 (codes "a") (7 ∷ []) 1 sender sent refl refl send_number
