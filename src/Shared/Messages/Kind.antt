-- ===== src/Shared/Messages/Kind.antt =====
-- shared/fuse_messages.hpp: `getClientMsgType`, `getSeq` and `getBallot`.
use disk_tees.Prelude.{ℕ, ℤ, ltb, ◌==◌, if◌then◌else◌}
use disk_tees.Shared.Ballot.{Ballot}
use disk_tees.Shared.Messages.{
  ClientMsg, mknod, mkdir, symlink, unlink, rmdir, rename, link, chmod, chown, truncate, utimens,
  create, open_file, write_buf, release, fallocate, setxattr, removexattr, copy_file_range, fsync,
  p1a, disk_req, p2a,
}

pub data ClientMsgType : Type 0 where
  write fsync_type protocol : ClientMsgType

-- `std::variant::index`
pub index : ClientMsg → ℕ
index (mknod _) = 0
index (mkdir _) = 1
index (symlink _) = 2
index (unlink _) = 3
index (rmdir _) = 4
index (rename _) = 5
index (link _) = 6
index (chmod _) = 7
index (chown _) = 8
index (truncate _) = 9
index (utimens _) = 10
index (create _) = 11
index (open_file _) = 12
index (write_buf _) = 13
index (release _) = 14
index (fallocate _) = 15
index (setxattr _) = 16
index (removexattr _) = 17
index (copy_file_range _) = 18
index (fsync _) = 19
index (p1a _) = 20
index (disk_req _) = 21
index (p2a _) = 22

unfoldable pub get_client_msg_type : ClientMsg → ClientMsgType
unfolding index
get_client_msg_type msg =
    if ltb (index msg) 19 then write else if index msg == 19 then fsync_type else protocol

unfoldable pub get_seq : ClientMsg → ℤ
get_seq (mknod p) = p.seq
get_seq (mkdir p) = p.seq
get_seq (symlink p) = p.seq
get_seq (unlink p) = p.seq
get_seq (rmdir p) = p.seq
get_seq (rename p) = p.seq
get_seq (link p) = p.seq
get_seq (chmod p) = p.seq
get_seq (chown p) = p.seq
get_seq (truncate p) = p.seq
get_seq (utimens p) = p.seq
get_seq (create p) = p.seq
get_seq (open_file p) = p.seq
get_seq (write_buf p) = p.seq
get_seq (release p) = p.seq
get_seq (fallocate p) = p.seq
get_seq (setxattr p) = p.seq
get_seq (removexattr p) = p.seq
get_seq (copy_file_range p) = p.seq
get_seq (fsync p) = p.seq
get_seq (p1a p) = p.seq
get_seq (disk_req p) = p.seq
get_seq (p2a p) = p.seq

unfoldable pub get_ballot : ClientMsg → Ballot
get_ballot (mknod p) = p.r
get_ballot (mkdir p) = p.r
get_ballot (symlink p) = p.r
get_ballot (unlink p) = p.r
get_ballot (rmdir p) = p.r
get_ballot (rename p) = p.r
get_ballot (link p) = p.r
get_ballot (chmod p) = p.r
get_ballot (chown p) = p.r
get_ballot (truncate p) = p.r
get_ballot (utimens p) = p.r
get_ballot (create p) = p.r
get_ballot (open_file p) = p.r
get_ballot (write_buf p) = p.r
get_ballot (release p) = p.r
get_ballot (fallocate p) = p.r
get_ballot (setxattr p) = p.r
get_ballot (removexattr p) = p.r
get_ballot (copy_file_range p) = p.r
get_ballot (fsync p) = p.r
get_ballot (p1a p) = p.r
get_ballot (disk_req p) = p.r
get_ballot (p2a p) = p.r
