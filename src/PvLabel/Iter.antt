-- ===== src/PvLabel/Iter.antt =====
-- The iterators of src/pvlabel.rs over the bytes of a store.
use melvin.Prelude.{
  ◌==◌, leb, not, true, false, if◌then◌else◌, ℕ, ◌+◌, ◌-◌, ◌≤◌, ◌≡◌, refl, ap, suc, List, ◌%◌, ◌∷◌,
  [], none, some, ok, arith,
}
use melvin.Crates.{Crates}
use melvin.Disk.{Store, read, slice_of, slice_from}
use melvin.Disk.Laws.{slice-read, drop-read, length-read}
use melvin.PvLabel.Areas.{PvArea, next_locn, next_area, collect_areas, iter_pv_area}

pub slice_of-read :
    (i n a b : ℕ) (s : Store)
    → a ≤ b
    → b ≤ n
    → slice_of (read i n s) a b ≡ ok (read (i + a) (b - a) s)
slice_of-read i n a b s h k =
    let e1 : leb a b ≡ true = ground arith in
    let e2 : leb b n ≡ true = ground arith in
    rw (length-read i n s, e1, e2, slice-read i a b n s h k) refl

pub slice_from-read :
    (i n a m : ℕ) (s : Store) → a + m ≡ n → slice_from (read i n s) a ≡ ok (read (i + a) m s)
slice_from-read i n a m s h =
    let e1 : leb a n ≡ true = ground arith in rw (length-read i n s, e1, drop-read i a n m s h) refl

module _ (c : Crates) (i n : ℕ) (s : Store) where
  pub next_locn-read :
      24 ≤ n
      → next_locn c (read i n s) ≡ (
          if c.read_u64 (read (i + 0) 8 s) == 0
          then ok none
          else ok (
              some (
                record {
                  offset = c.read_u64 (read (i + 0) 8 s);
                  size = c.read_u64 (read (i + 8) 8 s);
                  checksum = c.read_u32 (read (i + 16) 4 s);
                  ignored = not (c.read_u32 (read (i + 20) 4 s) % 2 == 0);
                },
                read (i + 24) (n - 24) s,
              )))
  unfolding next_locn
  next_locn-read h = simp (
    slice_of-read i n 0 8 s (omega arith) (omega arith),
    slice_of-read i n 8 16 s (omega arith) (omega arith),
    slice_of-read i n 16 20 s (omega arith) (omega arith),
    slice_of-read i n 20 24 s (omega arith) (omega arith),
    slice_from-read i n 24 (n - 24) s (omega arith),
  )

  pub next_area-read :
      16 ≤ n
      → next_area c (read i n s) ≡ (
          if c.read_u64 (read (i + 0) 8 s) == 0
          then ok none
          else ok (
              some (
                record {
                  offset = c.read_u64 (read (i + 0) 8 s);
                  size = c.read_u64 (read (i + 8) 8 s);
                },
                read (i + 16) (n - 16) s,
              )))
  unfolding next_area
  next_area-read h =
      rw
        (
          slice_of-read i n 0 8 s (omega arith) (omega arith),
          slice_of-read i n 8 16 s (omega arith) (omega arith),
          slice_from-read i n 16 (n - 16) s (omega arith),
        )
        refl

module _ (c : Crates) where
  pub iter_pv_area-read :
      (i n : ℕ) (s : Store) → iter_pv_area c (read i n s) ≡ collect_areas c (suc n) (read i n s)
  unfolding iter_pv_area
  iter_pv_area-read i n s = ap (λ k. collect_areas c (suc k) (read i n s)) (length-read i n s)

  pub collect_areas-end :
      (f i n : ℕ) (s : Store)
      → 16 ≤ n
      → c.read_u64 (read (i + 0) 8 s) ≡ 0
      → collect_areas c (suc f) (read i n s) ≡ ok []
  unfolding collect_areas
  collect_areas-end f i n s h e = rw (next_area-read c i n s h, e) refl

  pub collect_areas-more :
      (f i n off size : ℕ) (areas : List PvArea) (s : Store)
      → 16 ≤ n
      → c.read_u64 (read (i + 0) 8 s) ≡ off
      → c.read_u64 (read (i + 8) 8 s) ≡ size
      → (off == 0) ≡ false
      → collect_areas c f (read (i + 16) (n - 16) s) ≡ ok areas
      → collect_areas c (suc f) (read i n s) ≡ ok (record { offset = off; size = size } ∷ areas)
  unfolding collect_areas
  collect_areas-more f i n off size areas s h e1 e2 some_off rest =
      rw (next_area-read c i n s h, e1, e2, some_off, rest) refl
