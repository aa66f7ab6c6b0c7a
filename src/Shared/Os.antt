-- ===== src/Shared/Os.antt =====
-- What the program asks of the operating system, which is not part of the repository: the calls, with
-- the arguments that the source passes, and an interpreter of them as a parameter.
use disk_tees.Prelude.{ℕ, ℤ, Bool, Option, Bytes}

pub record Timespec : Type 0 where
  pub tv_sec : ℤ
  pub tv_nsec : ℤ

pub data Syscall : Type 0 where
  mkfifo : (path : Bytes) (mode : ℕ) → Syscall
  mknod : (path : Bytes) (mode rdev : ℕ) → Syscall
  mkdir : (path : Bytes) (mode : ℕ) → Syscall
  symlink : (target linkpath : Bytes) → Syscall
  unlink : (path : Bytes) → Syscall
  rmdir : (path : Bytes) → Syscall
  rename : (oldpath newpath : Bytes) → Syscall
  link : (oldpath newpath : Bytes) → Syscall
  fchmod : (fd : ℤ) (mode : ℕ) → Syscall
  chmod : (path : Bytes) (mode : ℕ) → Syscall
  fchown : (fd : ℤ) (uid gid : ℕ) → Syscall
  lchown : (path : Bytes) (uid gid : ℕ) → Syscall
  ftruncate : (fd size : ℤ) → Syscall
  truncate : (path : Bytes) (size : ℤ) → Syscall
  futimens : (fd : ℤ) (tv0 tv1 : Timespec) → Syscall
  -- with `AT_SYMLINK_NOFOLLOW`, relative to descriptor 0
  utimensat : (path : Bytes) (tv0 tv1 : Timespec) → Syscall
  -- `open` with three arguments, and with two
  open_mode : (path : Bytes) (flags : ℤ) (mode : ℕ) → Syscall
  open_file : (path : Bytes) (flags : ℤ) → Syscall
  pwrite : (fd : ℤ) (bytes : Bytes) (offset : ℤ) → Syscall
  close : (fd : ℤ) → Syscall
  posix_fallocate : (fd offset length : ℤ) → Syscall
  lsetxattr : (path name value : Bytes) (flags : ℤ) → Syscall
  lremovexattr : (path name : Bytes) → Syscall
  copy_file_range : (fd_in off_in fd_out off_out : ℤ) (len : ℕ) (flags : ℤ) → Syscall
  fsync : (fd : ℤ) → Syscall
  fdatasync : (fd : ℤ) → Syscall
  -- libfuse's `fuse_buf_copy` of `size - off` bytes of memory from `mem + off` to a descriptor
  fuse_buf_copy : (mem : Bytes) (off size : ℕ) (fd offset : ℤ) → Syscall
  fstat : (fd : ℤ) → Syscall
  lstat : (path : Bytes) → Syscall
  access : (path : Bytes) (mask : ℤ) → Syscall
  readlink : (path : Bytes) (size : ℕ) → Syscall
  statvfs : (path : Bytes) → Syscall
  dup : (fd : ℤ) → Syscall
  lgetxattr : (path name : Bytes) (size : ℕ) → Syscall
  llistxattr : (path : Bytes) (size : ℕ) → Syscall
  flock : (fd op : ℤ) → Syscall
  lseek : (fd off whence : ℤ) → Syscall
  -- `std::system`, `std::remove`
  system : (command : Bytes) → Syscall
  remove : (path : Bytes) → Syscall

-- What a call returns, `errno` behind it, the bytes that it leaves in a buffer of the caller, and the two
-- offsets that `copy_file_range` leaves where its pointers point.
pub record Ret : Type 0 where
  pub ret : ℤ
  pub errno : ℤ
  pub out : Bytes
  pub off_in : ℤ
  pub off_out : ℤ

-- The outcome of reading a file: a `std::ifstream::failure`, a `json::exception`, or a value.
pub data Read {ℓ} (A : Type ℓ) : Type ℓ where
  io_failure : Read A
  json_error : Read A
  value : A → Read A

-- `W` is the state of the world outside the process.
pub record Os (W : Type 0) : Type 0 where
  pub sys : Syscall → W → Ret × W
  -- the macro `S_ISFIFO`
  pub s_isfifo : ℕ → Bool
  -- the first line of a file; `none` is a `std::ifstream::failure`
  pub read_line : Bytes → W → Option Bytes
  -- the field "success" of a JSON file
  pub read_success : Bytes → W → Read Bool
