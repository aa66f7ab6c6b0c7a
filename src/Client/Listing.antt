-- ===== src/Client/Listing.antt =====
-- client/client_fuse.cpp: `client_readdir` against the directory as a list of entries.
use mathlib.Core.List.{append_assoc, append-nil}
use disk_tees.Prelude.{
  option_cases, drop_elem, past_end, within, ℕ, zero, suc, ◌+◌, ◌≤◌, ◌<◌, ℤ, ◌==ℤ◌, eqb_ℤ_iff, true,
  false, none, some, List, [], ◌∷◌, ◌++◌, Bytes, length, take, drop, get_elem?, ◌≡◌, refl, sym, ap,
  ◌∙◌, ◌⊎◌, inl, inr, Outcome, ok, arith, Bool-cases,
}
use disk_tees.Client.Calls.Directories.{
  Dirent, EntryStat, DirCalls, Filler, XmpDirp, entry_stat, seek_to, next_entry, fill_dir,
  read_entries_from,
}

-- What the C library documents, for a directory that does not change: a stream has a position among the entries, and
-- `telldir` names it in a way that `seekdir` understands.
pub record IsDirectory {W : Type 0} (dirs : DirCalls W) (entries : List Dirent)
    (position : ℕ → W → ℕ) (cookie : ℕ → ℤ) : Type 0 where
  pub entry-read : (dp : ℕ) (w : W) → (dirs.read_dir dp w).0 ≡ get_elem? entries (position dp w)
  pub position-read :
      (dp : ℕ) (w : W)
      → position dp (dirs.read_dir dp w).1 ≡ (elim (get_elem? entries (position dp w)) [
        | none ↦ position dp w
        | some e ↦ suc (position dp w)
      ])
  pub cookie-tell : (dp : ℕ) (w : W) → dirs.tell_dir dp w ≡ cookie (position dp w)
  pub position-seek : (dp i : ℕ) (w : W) → position dp (dirs.seek_dir dp (cookie i) w) ≡ i
  pub cookie_injective : (i j : ℕ) → cookie i ≡ cookie j → i ≡ j

abbrev pub Line : Type 0
Line = Bytes × EntryStat × ℤ

-- A filler adds the entry, or leaves the buffer as it is and says that it is full.
pub record IsFiller {B : Type 0} (filler : Filler B) (filled : B → List Line) : Type 0 where
  pub filled-full :
      (b : B) (name : Bytes) (st : EntryStat) (off : ℤ)
      → (filler b name st off).0 ≡ true
      → filled (filler b name st off).1 ≡ filled b
  pub filled-more :
      (b : B) (name : Bytes) (st : EntryStat) (off : ℤ)
      → (filler b name st off).0 ≡ false
      → filled (filler b name st off).1 ≡ filled b ++ (name, st, off) ∷ []

-- The lines of some entries, each with the cookie of the position behind it.
pub listing : (ℕ → ℤ) → ℕ → List Dirent → List Line
listing cookie i [] = []
listing cookie i (e ∷ es) = (e.d_name, entry_stat e, cookie (suc i)) ∷ listing cookie (suc i) es

-- The stream stands before entry `i`, or behind it with the entry kept.
unfoldable pub Before :
    {W : Type 0} (entries : List Dirent) (position : ℕ → W → ℕ) (cookie : ℕ → ℤ)
    → ℕ
    → XmpDirp
    → W
    → Type 0
Before entries position cookie i d w =
    (d.offset ≡ cookie i)
    × ((d.entry ≡ none) × (position d.dp w ≡ i)
        ⊎ (e : Dirent) × (d.entry ≡ some e)
          × (get_elem? entries i ≡ some e)
          × (position d.dp w ≡ suc i))

module _ {W B : Type 0} (dirs : DirCalls W) (filler : Filler B) (entries : List Dirent)
    (position : ℕ → W → ℕ) (cookie : ℕ → ℤ) (filled : B → List Line)
    (h : IsDirectory dirs entries position cookie) (hf : IsFiller filler filled) where
  -- How the loop ends: with the entries from `i` on, up to the end or up to one that is kept.
  pub Filled : ℕ → B → Outcome (XmpDirp × B × W) → Type 0
  Filled i b end =
      (n : ℕ) × (d : XmpDirp) × (b' : B) × (w : W) × (end ≡ ok (d, b', w))
      × (filled b' ≡ filled b ++ listing cookie i (take n (drop i entries)))
      × Before entries position cookie (i + n) d w
      × ((length entries ≤ i + n) ⊎ ((e : Dirent) × (d.entry ≡ some e)))

  next_lem :
      (i : ℕ) (d : XmpDirp) (w : W)
      → Before entries position cookie i d w
      → ((next_entry dirs filler d w).0 ≡ get_elem? entries i)
        × (position d.dp (next_entry dirs filler d w).1
            ≡ (elim (get_elem? entries i) [ none ↦ i | some e ↦ suc i ]))
  unfolding next_entry Before
  next_lem i d w (at, inl (fresh, here)) = (
    rw (next_entry, fresh) (h.entry-read d.dp w ∙ ap (get_elem? entries) here),
    rw (next_entry, fresh)
        (h.position-read d.dp w
          ∙ ap (λ k. elim (get_elem? entries k) as (λ _. ℕ) [ none ↦ k | some e ↦ suc k ]) here),
  )
  next_lem i d w (at, inr (e, kept, there, here)) =
      (rw (next_entry, kept) (sym there), rw (next_entry, kept, there) here)

  -- Nothing was added.
  none_added :
      (i : ℕ) (b b' : B)
      → filled b' ≡ filled b
      → filled b' ≡ filled b ++ listing cookie i (take 0 (drop i entries))
  unfolding listing
  none_added i b b' e = e ∙ sym (append-nil (filled b))

  one_added :
      (i n : ℕ) (e : Dirent) (b b1 b2 : B)
      → get_elem? entries i ≡ some e
      → filled b1 ≡ filled b ++ (e.d_name, entry_stat e, cookie (suc i)) ∷ []
      → filled b2 ≡ filled b1 ++ listing cookie (suc i) (take n (drop (suc i) entries))
      → filled b2 ≡ filled b ++ listing cookie i (take (suc n) (drop i entries))
  unfolding listing
  one_added i n e b b1 b2 there first more =
      more
      ∙ ap (λ ls. ls ++ listing cookie (suc i) (take n (drop (suc i) entries))) first
      ∙ append_assoc (filled b) _ _
      ∙ ap (λ es. filled b ++ listing cookie i (take (suc n) es))
          (sym (drop_elem i entries e there))

  stay :
      (i : ℕ) (d : XmpDirp) (w : W)
      → Before entries position cookie i d w
      → Before entries position cookie (i + 0) d w
  stay i d w v = let same : i ≡ i + 0 = omega arith in rw same at v

  shift :
      (i n : ℕ) (d : XmpDirp) (w : W)
      → Before entries position cookie (suc i + n) d w
      → Before entries position cookie (i + suc n) d w
  shift i n d w v = let same : suc i + n ≡ i + suc n = omega arith in rw same at v

  stop_shift :
      (i n : ℕ) (d : XmpDirp)
      → (length entries ≤ suc i + n) ⊎ ((e : Dirent) × (d.entry ≡ some e))
      → (length entries ≤ i + suc n) ⊎ ((e : Dirent) × (d.entry ≡ some e))
  stop_shift i n d (inl le) = inl (omega arith)
  stop_shift i n d (inr kept) = inr kept

  fill_lem :
      (fuel i : ℕ) (d : XmpDirp) (b : B) (w : W)
      → Before entries position cookie i d w
      → i ≤ length entries
      → length entries < fuel + i
      → Filled i b (fill_dir dirs filler fuel d b w)
  unfolding Filled fill_dir Before
  fill_lem zero i d b w v le enough = absurd (omega arith)
  fill_lem (suc fuel) i d b w v le enough =
      let (entry, place) = next_lem i d w v in
      let w1 = (next_entry dirs filler d w).1 in
      elim (option_cases (get_elem? entries i)) [
        | inl end ↦ (
          0,
          record d { entry = none },
          b,
          w1,
          rw (fill_dir, entry, end) refl,
          none_added i b b refl,
          stay i _ w1 (v.0, inl (refl, rw end at place)),
          inl (omega (arith, past_end i entries end)),
        )
        | inr (e, there) ↦
            let found = entry ∙ there in
            let at : position d.dp w1 ≡ suc i = rw there at place in
            let tell : dirs.tell_dir d.dp w1 ≡ cookie (suc i) =
              h.cookie-tell d.dp w1 ∙ ap cookie at in
            let b1 = (filler b e.d_name (entry_stat e) (cookie (suc i))).1 in
            elim (Bool-cases (filler b e.d_name (entry_stat e) (cookie (suc i))).0) [
              | inl full ↦ (
                0,
                record d { entry = some e },
                b1,
                w1,
                rw (fill_dir, found, tell, full, tell) refl,
                none_added i b b1 (hf.filled-full b e.d_name (entry_stat e) (cookie (suc i)) full),
                stay i _ w1 (v.0, inr (e, refl, there, at)),
                inr (e, refl),
              )
              | inr room ↦
                  let d1 = record d { entry = none; offset = cookie (suc i) } in
                  let (n, d2, b2, w2, done, added, v2, stop) =
                    fill_lem fuel (suc i) d1 b1 w1 (refl, inl (refl, at))
                      (omega (arith, within i entries e there)) (omega arith) in
                  (
                    suc n,
                    d2,
                    b2,
                    w2,
                    rw (fill_dir, found, tell, room, tell) done,
                    one_added i n e b b1 b2 there
                        (hf.filled-more b e.d_name (entry_stat e) (cookie (suc i)) room) added,
                    shift i n d2 w2 v2,
                    stop_shift i n d2 stop,
                  )
            ]
      ]

  seek_lem :
      (i j : ℕ) (d : XmpDirp) (w : W)
      → Before entries position cookie i d w
      → Before entries position cookie j
          (seek_to dirs filler (cookie j) d w).0
          (seek_to dirs filler (cookie j) d w).1
  unfolding seek_to Before
  seek_lem i j d w v = elim (Bool-cases (cookie j ==ℤ d.offset)) [
    | inl same ↦
        let equal : j ≡ i = h.cookie_injective j i ((eqb_ℤ_iff (cookie j) d.offset).0 same ∙ v.0) in
        rw same (rw equal v)
    | inr other ↦ rw other (refl, inl (refl, h.position-seek d.dp j w))
  ]

  -- Whatever was read before, a call of `client_readdir` at the offset of position `i` ends, and fills the buffer with
  -- the entries from `i` on, each once and in order with the offset of the next, up to the end or up to one that
  -- did not fit, which the stream keeps; and the stream is then ready for any other call.
  pub readdir_lem :
      (fuel i j : ℕ) (d : XmpDirp) (b : B) (w : W)
      → Before entries position cookie j d w
      → i ≤ length entries
      → length entries < fuel
      → Filled i b (read_entries_from dirs filler fuel (cookie i) d b w)
  unfolding read_entries_from
  readdir_lem fuel i j d b w v le enough =
      fill_lem fuel i (seek_to dirs filler (cookie i) d w).0 b
        (seek_to dirs filler (cookie i) d w).1 (seek_lem j i d w v) le (omega arith)
