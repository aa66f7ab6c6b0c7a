-- ===== src/Tests/Lines.antt =====
-- Connections that write down what is sent on each of them, and a codec of the messages that remove a file
-- or ask for an fsync.
use disk_tees.Prelude.{
  ℕ, zero, suc, ◌==◌, ==_iff, ℤ, pos, negsuc, minus_one, pos_part, neg_part, leb_ℤ, ltb_ℤ, true,
  ◌≡◌, refl, sym, ap, Option, none, some, List, [], ◌∷◌, ◌++◌, Bytes, length, take, arith,
  if◌then◌else◌,
}
use disk_tees.Shared.Ballot.{Ballot}
use disk_tees.Shared.Messages.{ClientMsg, UnlinkParams, FsyncParams}
use disk_tees.Shared.Tls.{Ssl, SslRead, no_error, fatal, Openssl, Codec}
use disk_tees.Shared.Tls.Streams.{IsReading}
use disk_tees.Shared.Tls.Writing.{IsWriting, IsCodec}
use disk_tees.Shared.Tls.Delivered.{IsHealthy}
use disk_tees.Tests.Pipe.{whole, take_first, still, concat-whole, whole-AreFull, whole_four}

-- What has arrived, and what was written on each connection.
pub record Lines : Type 0 where
  pub inbox : List Bytes
  pub outbox : Ssl → List Bytes

pub write_line : Ssl → Bytes → ℤ → Lines → ℤ × Lines
write_line ssl bytes (pos n) l = (
  pos 1,
  record l { outbox = λ k. if k == ssl then l.outbox k ++ whole (take n bytes) else l.outbox k },
)
write_line ssl bytes (negsuc n) l = (minus_one, l)

pub read_line : ℕ → Lines → SslRead × Lines
read_line n l =
    let (read, p) = take_first n l.inbox (record { inbox = l.inbox; outbox = [] }) in
    (read, record l { inbox = p.inbox })

abbrev pub lines : Openssl Lines
lines = record {
  ssl_write = λ ssl bytes n l. write_line ssl bytes n l;
  ssl_read = λ ssl n l. read_line n l;
  ssl_get_error = λ ssl rc l. if ltb_ℤ (pos 0) rc then no_error else fatal;
  ssl_new = λ sock host l. (1, l);
  ssl_accept = λ ssl l. (pos 1, l);
  ssl_connect = λ ssl l. (pos 1, l);
  ssl_close = λ ssl sock l. l;
  load_verify_locations = λ path l. l;
  use_certificate_file = λ path l. (pos 1, l);
  use_private_key_file = λ path l. (pos 1, l);
}

same_line : (k : ℕ) → (k == k) ≡ true
same_line k = (==_iff k k).1 refl

pub lines-IsWriting : IsWriting lines still (λ ssl l. l.outbox ssl) whole
unfolding leb_ℤ write_line
lines-IsWriting = record {
  written-write = λ ssl bytes n l e. rw (same_line ssl) refl;
  written-fail = λ ssl bytes n l e. cc;
  written-poll_one = λ ssl sock event l. refl;
  concat-split = concat-whole;
  split-AreFull = whole-AreFull;
  split-four = whole_four;
}

pub lines-IsHealthy : IsHealthy lines (λ ssl l. l.outbox ssl)
unfolding leb_ℤ write_line
lines-IsHealthy = record {
  succeeds = λ ssl bytes n l. refl;
  apart = λ ssl other bytes n l h. ground (arith, ==_iff other ssl);
}

pub lines-IsReading : IsReading lines (λ ssl l. l.inbox)
unfolding read_line take_first
lines-IsReading = record {
  out-read = λ ssl n l b bytes rest e. rw e refl;
  rc-read = λ ssl n l b bytes rest e. rw e refl;
  records-read = λ ssl n l b bytes rest e. rw e refl;
  no_error-positive = λ ssl rc l e. rw e refl;
}

int_of : ℕ → ℕ → ℤ
int_of p zero = pos p
int_of p (suc n) = negsuc n

int_of-parts : (z : ℤ) → int_of (pos_part z) (neg_part z) ≡ z
unfolding int_of
int_of-parts (pos n) = refl
int_of-parts (negsuc n) = refl

write_ballot : Ballot → Bytes → Bytes
write_ballot b rest =
    pos_part b.ballot_num
    ∷ neg_part b.ballot_num
    ∷ pos_part b.client_id
    ∷ neg_part b.client_id
    ∷ pos_part b.config_num
    ∷ neg_part b.config_num
    ∷ rest

write_unlink : UnlinkParams → Bytes
unfolding write_ballot
write_unlink p = 0 ∷ pos_part p.seq ∷ neg_part p.seq ∷ write_ballot p.r (length p.path ∷ p.path)

write_fsync : FsyncParams → Bytes
unfolding write_ballot
write_fsync p =
    1
    ∷ pos_part p.seq
    ∷ neg_part p.seq
    ∷ write_ballot p.r (pos_part p.fi.flags ∷ neg_part p.fi.flags ∷ p.fi.fh ∷ [])

unfoldable pub serialize : ClientMsg → Option Bytes
unfolding write_unlink write_fsync
serialize (ClientMsg.unlink p) = some (write_unlink p)
serialize (ClientMsg.fsync p) = some (write_fsync p)
serialize other = none

pub deserialize : Bytes → Option ClientMsg
unfolding int_of
deserialize (zero ∷ a ∷ b ∷ c ∷ d ∷ e ∷ f ∷ g ∷ h ∷ n ∷ path) = some (
    ClientMsg.unlink (record {
      seq = int_of a b;
      r = record { ballot_num = int_of c d; client_id = int_of e f; config_num = int_of g h };
      path = take n path;
    }))
deserialize (suc zero ∷ a ∷ b ∷ c ∷ d ∷ e ∷ f ∷ g ∷ h ∷ i ∷ j ∷ fh ∷ extra) = some (
    ClientMsg.fsync (record {
      seq = int_of a b;
      r = record { ballot_num = int_of c d; client_id = int_of e f; config_num = int_of g h };
      fi = record { flags = int_of i j; fh = fh };
    }))
deserialize _ = none

abbrev pub unlinks : Codec ClientMsg
unlinks = record { serialize = serialize; deserialize = deserialize }

take-append : (xs ys : Bytes) → take (length xs) (xs ++ ys) ≡ xs
take-append [] ys = refl
take-append (x ∷ xs) ys = ap (λ zs. x ∷ zs) (take-append xs ys)

unlink_read :
    (p : UnlinkParams) (extra : Bytes)
    → deserialize (write_unlink p ++ extra) ≡ some (ClientMsg.unlink p)
unfolding deserialize write_unlink write_ballot
unlink_read p extra =
    rw
      (
        int_of-parts p.seq,
        int_of-parts p.r.ballot_num,
        int_of-parts p.r.client_id,
        int_of-parts p.r.config_num,
        take-append p.path extra,
      )
      refl

fsync_read :
    (p : FsyncParams) (extra : Bytes)
    → deserialize (write_fsync p ++ extra) ≡ some (ClientMsg.fsync p)
unfolding deserialize write_fsync write_ballot
fsync_read p extra =
    rw
      (
        int_of-parts p.seq,
        int_of-parts p.r.ballot_num,
        int_of-parts p.r.client_id,
        int_of-parts p.r.config_num,
        int_of-parts p.fi.flags,
      )
      refl

pub unlinks-IsCodec : IsCodec unlinks
unfolding serialize
unlinks-IsCodec (ClientMsg.unlink p) bytes extra e =
    let same : write_unlink p ≡ bytes = ground arith in rw (sym same) (unlink_read p extra)
unlinks-IsCodec (ClientMsg.fsync p) bytes extra e =
    let same : write_fsync p ≡ bytes = ground arith in rw (sym same) (fsync_read p extra)
unlinks-IsCodec other bytes extra e = cc
