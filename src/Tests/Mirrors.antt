-- ===== src/Tests/Mirrors.antt =====
-- A chmod by handle: the client's descriptor is 4, and the replica has the same file open as 9.
use disk_tees.Prelude.{pos, ◌==ℤ◌, true, false, refl, some, List, [], ◌∷◌, codes}
use disk_tees.Shared.Convert.{narrow}
use disk_tees.Shared.IntMap.{find}
use disk_tees.Shared.Os.{Syscall}
use disk_tees.Shared.Messages.{ClientMsg}
use disk_tees.Replica.Store.{Store}
use disk_tees.Client.State.{Client, new_client}
use disk_tees.Client.Trace.{Call, perform}
use disk_tees.System.Mirror.{Mirrored, mirrored}
use disk_tees.System.Mirror.Issues.{issues, by_either, handle_of}
use disk_tees.Tests.World.{logging_os, Wire, quiet, wire, ballot_one}

abbrev mounted : Client (List Syscall) (Wire ClientMsg)
mounted = new_client true false ballot_one (codes "/c") (pos 1) [] [] quiet

abbrev copy : Store (List Syscall)
copy = record { directory = codes "/b/s"; file_handle_converter = (pos 4, pos 9) ∷ []; world = [] }

abbrev make_readable : Call
make_readable = Call.chmod (codes "/a") 0o644 (some (record { flags = pos 0; fh = 4 }))

mirrored_example :
    Mirrored logging_os wire mounted copy
      (Syscall.fchmod (pos 4) 0o644)
      (Syscall.fchmod (pos 9) 0o644)
      (perform logging_os wire make_readable mounted)
unfolding issues by_either narrow new_client handle_of find ◌==ℤ◌
mirrored_example =
    mirrored logging_os wire mounted copy (λ fh. pos 9) make_readable (Syscall.fchmod (pos 4) 0o644)
      (Syscall.fchmod (pos 9) 0o644) refl refl refl refl (record { local = refl; remote = refl })
