-- ===== src/PvLabel/Areas.antt =====
-- Areas and locations of src/pvlabel.rs, and the iterators over them.
use melvin.Prelude.{
  ℕ, zero, suc, ◌%◌, ◌==◌, not, Bool, if◌then◌else◌, List, [], ◌∷◌, Option, none, some, Bytes,
  length, Result, ok, out_of_fuel, ◌>>=◌,
}
use melvin.Crates.{Crates}
use melvin.Disk.{slice_of, slice_from}

pub record PvArea : Type 0 where
  pub offset : ℕ
  pub size : ℕ

pub record RawLocn : Type 0 where
  pub offset : ℕ
  pub size : ℕ
  pub checksum : ℕ
  pub ignored : Bool

module _ (c : Crates) where
  -- `PvAreaIter::next`: the area at the front, and the bytes behind it.
  unfoldable pub next_area : Bytes → Result (Option (PvArea × Bytes))
  next_area area = do
    b0 ← slice_of area 0 8
    b1 ← slice_of area 8 16
    let off = c.read_u64 b0
    let size = c.read_u64 b1
    if off == 0
        then ok none
        else slice_from area 16 >>= λ rest. ok (some (record { offset = off; size = size }, rest))

  -- `iter_pv_area(buf).collect()`, on fuel
  unfoldable pub collect_areas : ℕ → Bytes → Result (List PvArea)
  collect_areas zero area = out_of_fuel
  collect_areas (suc f) area = next_area area >>= λ o. elim o [
    | none ↦ ok []
    | some (a, rest) ↦ collect_areas f rest >>= λ areas. ok (a ∷ areas)
  ]

  -- Every area takes sixteen bytes.
  unfoldable pub iter_pv_area : Bytes → Result (List PvArea)
  iter_pv_area buf = collect_areas (suc (length buf)) buf

  -- `RawLocnIter::next`
  unfoldable pub next_locn : Bytes → Result (Option (RawLocn × Bytes))
  next_locn area = do
    b0 ← slice_of area 0 8
    b1 ← slice_of area 8 16
    b2 ← slice_of area 16 20
    b3 ← slice_of area 20 24
    let off = c.read_u64 b0
    let size = c.read_u64 b1
    let checksum = c.read_u32 b2
    let flags = c.read_u32 b3
    if off == 0
        then ok none
        else slice_from area 24 >>= λ rest. ok (
            some (
              record {
                offset = off;
                size = size;
                checksum = checksum;
                ignored = not (flags % 2 == 0);
              },
              rest,
            ))
