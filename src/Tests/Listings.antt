-- ===== src/Tests/Listings.antt =====
-- A directory of two entries, read into a buffer with room for one.
use disk_tees.Prelude.{
  ℕ, zero, suc, pos_part, ℤ, pos, ◌≡◌, refl, inl, true, false, none, some, List, [], ◌∷◌, ◌++◌,
  Bytes, codes, get_elem?, arith,
}
use disk_tees.Client.Calls.Directories.{
  Dirent, EntryStat, DirCalls, Filler, XmpDirp, read_entries_from,
}
use disk_tees.Client.Listing.{IsDirectory, IsFiller, Line, Before, Filled, readdir_lem}

abbrev two_entries : List Dirent
two_entries =
    record { d_ino = 1; d_type = 8; d_name = codes "a" }
    ∷ record { d_ino = 2; d_type = 8; d_name = codes "b" }
    ∷ []

abbrev counting : DirCalls ℕ
counting = record {
  open_dir = λ path w. (some 1, pos 0, zero);
  read_dir = λ dp w.
      (get_elem? two_entries w, elim (get_elem? two_entries w) [ none ↦ w | some e ↦ suc w ]);
  tell_dir = λ dp w. pos w;
  seek_dir = λ dp offset w. pos_part offset;
  close_dir = λ dp w. w;
}

fill_room : Filler (ℕ × List Line)
fill_room (zero, lines) name st off = (true, (zero, lines))
fill_room (suc n, lines) name st off = (false, (n, lines ++ (name, st, off) ∷ []))

counting-IsDirectory : IsDirectory counting two_entries (λ dp w. w) pos
counting-IsDirectory = record {
  entry-read = λ dp w. refl;
  position-read = λ dp w. refl;
  cookie-tell = λ dp w. refl;
  position-seek = λ dp i w. refl;
  cookie_injective = λ i j e. ground arith;
}

filled_full :
    (b : ℕ × List Line) (name : Bytes) (st : EntryStat) (off : ℤ)
    → (fill_room b name st off).0 ≡ true
    → (fill_room b name st off).1.1 ≡ b.1
unfolding fill_room
filled_full (zero, lines) name st off e = refl
filled_full (suc n, lines) name st off e = cc

filled_more :
    (b : ℕ × List Line) (name : Bytes) (st : EntryStat) (off : ℤ)
    → (fill_room b name st off).0 ≡ false
    → (fill_room b name st off).1.1 ≡ b.1 ++ (name, st, off) ∷ []
unfolding fill_room
filled_more (zero, lines) name st off e = cc
filled_more (suc n, lines) name st off e = refl

fill_room-IsFiller : IsFiller fill_room (λ b. b.1)
fill_room-IsFiller = record { filled-full = filled_full; filled-more = filled_more }

abbrev opened : XmpDirp
opened = record { dp = 1; entry = none; offset = pos 0 }

readdir_lem_example :
    Filled counting fill_room two_entries
      (λ dp w. w)
      pos
      (λ b. b.1)
      counting-IsDirectory
      fill_room-IsFiller
      1
      (1, [])
      (read_entries_from counting fill_room 3 (pos 1) opened (1, []) 0)
unfolding Before
readdir_lem_example =
    readdir_lem counting fill_room two_entries (λ dp w. w) pos (λ b. b.1) counting-IsDirectory
      fill_room-IsFiller 3 1 0 opened (1, []) 0 (refl, inl (refl, refl)) (omega arith) (omega arith)
