-- ===== src/Tests/Pipe.antt =====
-- Two ends of one connection on which every call succeeds, but for a write of a negative size, and the codec of one
-- number.
use mathlib.Core.List.{append-nil}
use disk_tees.Prelude.{
  ℕ, zero, suc, ℤ, pos, negsuc, minus_one, ltb_ℤ, leb_ℤ, true, ◌≡◌, refl, sym, Option, none, some,
  List, [], ◌∷◌, ◌++◌, Bytes, codes, length, take, drop, arith, if◌then◌else◌,
}
use disk_tees.Shared.Tls.{SslRead, no_error, fatal, Openssl, Sockets, Platform, Codec, zeros}
use disk_tees.Shared.Tls.Streams.{put_back, concat, AreFull, IsReading}
use disk_tees.Shared.Tls.Writing.{IsWriting, IsPlatform, IsCodec}
use disk_tees.Shared.Tls.Framing.{length-zeros}
use disk_tees.Shared.Tls.Bounds.{RefusesNegative}

pub record Pipe : Type 0 where
  pub inbox : List Bytes
  pub outbox : List Bytes

-- One record for each write that is not empty.
unfoldable pub whole : Bytes → List Bytes
whole [] = []
whole (b ∷ bytes) = (b ∷ bytes) ∷ []

unfoldable pub take_first : ℕ → List Bytes → Pipe → SslRead × Pipe
unfolding put_back
take_first n [] p = (record { rc = minus_one; out = [] }, p)
take_first n (r ∷ rs) p = (
  record { rc = pos (length (take n r)); out = take n r },
  record p { inbox = put_back (drop n r) rs },
)

-- A size below 0 is refused.
unfoldable pub write_some : Bytes → ℤ → Pipe → ℤ × Pipe
write_some bytes (pos n) p = (pos 1, record p { outbox = p.outbox ++ whole (take n bytes) })
write_some bytes (negsuc n) p = (minus_one, p)

abbrev pub pipe : Openssl Pipe
pipe = record {
  ssl_write = λ ssl bytes n p. write_some bytes n p;
  ssl_read = λ ssl n p. take_first n p.inbox p;
  ssl_get_error = λ ssl rc p. if ltb_ℤ (pos 0) rc then no_error else fatal;
  ssl_new = λ sock host p. (1, p);
  ssl_accept = λ ssl p. (pos 1, p);
  ssl_connect = λ ssl p. (pos 1, p);
  ssl_close = λ ssl sock p. p;
  load_verify_locations = λ path p. p;
  use_certificate_file = λ path p. (pos 1, p);
  use_private_key_file = λ path p. (pos 1, p);
}

abbrev pub still : {W : Type 0} → Sockets W
still = record {
  socket = λ p. (pos 3, p);
  set_nodelay = λ sock p. (pos 0, p);
  set_nonblock = λ sock p. (pos 0, p);
  bind = λ sock port p. (pos 0, p);
  listen = λ sock p. (pos 0, p);
  accept = λ sock p. ((pos 4, codes "10.0.0.2", pos 10100), p);
  connect = λ sock ip port p. (pos 0, p);
  poll_one = λ sock event p. p;
  poll = λ socks timeout p. ((pos 1, true ∷ []), p);
}

unfoldable pub int_bytes : ℤ → Bytes
int_bytes (pos n) = n ∷ 0 ∷ 0 ∷ 0 ∷ []
int_bytes (negsuc n) = n ∷ 1 ∷ 0 ∷ 0 ∷ []

pub bytes_int : Bytes → ℤ
bytes_int (n ∷ zero ∷ rest) = pos n
bytes_int (n ∷ suc s ∷ rest) = negsuc n
bytes_int _ = pos 0

abbrev pub plain : {W : Type 0} → Platform W
plain = record {
  int_bytes = int_bytes;
  bytes_int = bytes_int;
  junk = λ n p. zeros n;
  dangling = λ addr. addr;
}

unfoldable pub read_number : Bytes → Option ℕ
read_number [] = none
read_number (b ∷ bytes) = some b

abbrev pub numbers : Codec ℕ
numbers = record { serialize = λ m. some (m ∷ []); deserialize = read_number }

int_round_trip : (z : ℤ) → bytes_int (int_bytes z) ≡ z
unfolding int_bytes bytes_int
int_round_trip (pos n) = refl
int_round_trip (negsuc n) = refl

int_length : (z : ℤ) → length (int_bytes z) ≡ 4
unfolding int_bytes
int_length (pos n) = refl
int_length (negsuc n) = refl

pub plain-IsPlatform : {W : Type 0} → IsPlatform (plain {W = W})
plain-IsPlatform = record {
  bytes_int-int_bytes = λ z h. int_round_trip z;
  length-int_bytes = int_length;
  length-junk = λ n p. length-zeros n;
}

pub numbers-IsCodec : IsCodec numbers
unfolding read_number
numbers-IsCodec m bytes extra e = let same : m ∷ [] ≡ bytes = ground arith in rw (sym same) refl

pub pipe-IsReading : IsReading pipe (λ ssl p. p.inbox)
unfolding take_first
pipe-IsReading = record {
  out-read = λ ssl n p b bytes rest e. rw e refl;
  rc-read = λ ssl n p b bytes rest e. rw e refl;
  records-read = λ ssl n p b bytes rest e. rw e refl;
  no_error-positive = λ ssl rc p e. rw e refl;
}

pub concat-whole : (bytes : Bytes) → concat (whole bytes) ≡ bytes
unfolding concat whole
concat-whole [] = refl
concat-whole (b ∷ bytes) = append-nil (b ∷ bytes)

pub whole-AreFull : (bytes : Bytes) → AreFull (whole bytes)
unfolding AreFull whole
whole-AreFull [] = tt
whole-AreFull (b ∷ bytes) = (λ e. cc, tt)

pub whole_four : (bytes : Bytes) → length bytes ≡ 4 → whole bytes ≡ bytes ∷ []
unfolding whole
whole_four [] e = cc
whole_four (b ∷ bytes) e = refl

pub pipe-IsWriting : IsWriting pipe still (λ ssl p. p.outbox) whole
unfolding leb_ℤ write_some
pipe-IsWriting = record {
  written-write = λ ssl bytes n p e. refl;
  written-fail = λ ssl bytes n p e. cc;
  written-poll_one = λ ssl sock event p. refl;
  concat-split = concat-whole;
  split-AreFull = whole-AreFull;
  split-four = whole_four;
}

pub pipe-RefusesNegative : RefusesNegative pipe
unfolding leb_ℤ ltb_ℤ write_some
pipe-RefusesNegative = record {
  rc-negative = λ ssl bytes n p. refl;
  fatal-negative = λ ssl bytes n p. refl;
}
