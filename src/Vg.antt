-- ===== src/Vg.antt =====
-- src/vg.rs: volume groups. The extents that the volumes use, and those that are free.
pub mod Gaps
pub mod Around
pub mod Free
pub mod Used
pub mod Search
pub mod Text
pub mod System
pub mod Commit
pub mod Physical
pub mod Logical
pub mod Consistent
pub mod Total
pub mod Preserved
pub mod Reached
pub mod Written
pub mod RoundTrip
pub mod Extents
pub mod Linear
pub mod Disjoint
pub mod Live
pub mod Acts
pub mod Commands
pub mod Create
pub mod Refused
pub mod Params
use melvin.Prelude.{
  ℕ, suc, ◌+◌, ◌-◌, ◌%◌, ◌<◌, ◌≡◌, ltb, ◌==◌, ==_iff, Bool, true, false, not, List, [], ◌∷◌, Option,
  none, some, Bytes, two64, if◌then◌else◌, arith, Result, ok, panicked, ◌>>=◌, unwrap,
}
use melvin.BTree
use melvin.BTree.{Ord, BTreeMap, bytes_ord, insert, get, contains_key, values, keys}
use melvin.Types.{Pv, Lv, Vg}
use melvin.Lv
use melvin.Lv.Segments.{sum_u64}

pub nat_lt_irrefl : (a : ℕ) → ltb a a ≡ false
nat_lt_irrefl a = ground arith

pub nat_lt_trans : (a b c : ℕ) → ltb a b ≡ true → ltb b c ≡ true → ltb a c ≡ true
nat_lt_trans a b c h k = ground arith

pub nat_lt_total : (a b : ℕ) → ltb a b ≡ false → (a == b) ≡ false → ltb b a ≡ true
nat_lt_total a b h k = ground arith

instance abbrev pub nat_ord : Ord ℕ
nat_ord = record {
  lt = λ a b. ltb a b;
  eq = λ a b. a == b;
  eq_iff = ==_iff;
  lt_irrefl = nat_lt_irrefl;
  lt_trans = nat_lt_trans;
  lt_total = nat_lt_total;
}

-- Start and length of areas of a device.
abbrev pub Areas : Type 0
Areas = BTreeMap ℕ ℕ

abbrev pub or_new : Option Areas → Areas
or_new none = []
or_new (some m) = m

module _ {D : Type 0} ⦃o : Ord D⦄ where
  -- `entry(dev).or_insert(BTreeMap::new()).insert(start, len)`
  unfoldable pub add_area : D → ℕ → ℕ → BTreeMap D Areas → BTreeMap D Areas
  add_area dev start len m = insert dev (insert start len (or_new (get dev m))) m

  add_areas : List (D × ℕ × ℕ) → BTreeMap D Areas → BTreeMap D Areas
  add_areas [] m = m
  add_areas ((dev, start, len) ∷ rest) m = add_areas rest (add_area dev start len m)

  areas_of_lvs : List (Lv D) → BTreeMap D Areas → BTreeMap D Areas
  areas_of_lvs [] m = m
  areas_of_lvs (lv ∷ lvs) m = areas_of_lvs lvs (add_areas (Lv.used_areas lv) m)

  unfoldable pub used_areas : Vg D → BTreeMap D Areas
  unfolding areas_of_lvs add_areas
  used_areas vg = areas_of_lvs (values vg.lvs) []

  -- The fold over the areas of a device, from the end of the area before.
  unfoldable pub fold_areas : D → ℕ → Areas → BTreeMap D Areas → BTreeMap D Areas
  fold_areas dev prev_end [] free_map = free_map
  fold_areas dev prev_end ((start, len) ∷ rest) free_map =
      fold_areas dev ((start + len) % two64) rest
        (if ltb prev_end start then add_area dev prev_end (start - prev_end) free_map else free_map)

  -- Around the used areas of every device; the last area ends at the end of the volume.
  unfoldable pub around_used :
      BTreeMap D (Pv D) → List (D × Areas) → BTreeMap D Areas → Result (BTreeMap D Areas)
  around_used pvs [] free_map = ok free_map
  around_used pvs ((dev, area_map) ∷ rest) free_map = do
    pv ← unwrap (get dev pvs)
    around_used pvs rest (fold_areas dev 0 (insert pv.pe_count 0 area_map) free_map)

  -- "Also return completely-unused PVs"
  unfoldable pub add_unused : List (D × Pv D) → BTreeMap D Areas → BTreeMap D Areas
  add_unused [] free_map = free_map
  add_unused ((dev, pv) ∷ pvs) free_map =
      add_unused pvs (
        if contains_key dev free_map then free_map else insert dev ((0, pv.pe_count) ∷ []) free_map)

  unfoldable pub free_areas : Vg D → Result (BTreeMap D Areas)
  free_areas vg =
      around_used vg.pvs (used_areas vg) [] >>= λ free_map. ok (add_unused vg.pvs free_map)

-- The inner loop of `lv_create_linear`: it breaks at the first area that is long enough.
unfoldable pub first_fit : ℕ → List (ℕ × ℕ) → Option (ℕ × ℕ)
first_fit extent_size [] = none
first_fit extent_size ((start, len) ∷ areas) =
    if ltb len extent_size then first_fit extent_size areas else some (start, len)

module _ {D : Type 0} where
  abbrev at_device : D → Option (ℕ × ℕ) → Option (D × ℕ × ℕ) → Option (D × ℕ × ℕ)
  at_device dev none found = found
  at_device dev (some (start, len)) found = some (dev, start, len)

  -- The outer loop goes on: a later device replaces what was found.
  unfoldable pub find_contig : ℕ → List (D × Areas) → Option (D × ℕ × ℕ) → Option (D × ℕ × ℕ)
  unfolding first_fit
  find_contig extent_size [] found = found
  find_contig extent_size ((dev, areas) ∷ rest) found =
      find_contig extent_size rest (at_device dev (first_fit extent_size areas) found)

  pe_counts : List (Pv D) → List ℕ
  pe_counts [] = []
  pe_counts (pv ∷ pvs) = pv.pe_count ∷ pe_counts pvs

  used_counts : List (Lv D) → List ℕ
  used_counts [] = []
  used_counts (lv ∷ lvs) = Lv.used_extents lv ∷ used_counts lvs

  unfoldable pub extents_in_use : Vg D → ℕ
  unfolding used_counts
  extents_in_use vg = sum_u64 (used_counts (values vg.lvs))

  unfoldable pub extents : Vg D → ℕ
  unfolding pe_counts
  extents vg = sum_u64 (pe_counts (values vg.pvs))

  -- The subtraction is one of `u64`.
  unfoldable pub extents_free : Vg D → ℕ
  extents_free vg = (extents vg + two64 - extents_in_use vg) % two64

  abbrev pub pv_list : Vg D → List D
  pv_list vg = keys vg.pvs

  abbrev pub lv_list : Vg D → List Bytes
  lv_list vg = keys vg.lvs

module _ {D : Type 0} ⦃o : Ord D⦄ where
  abbrev pub pv_get : Vg D → D → Option (Pv D)
  pv_get vg dev = get dev vg.pvs

module _ {D : Type 0} where
  abbrev pub lv_get : Vg D → Bytes → Option (Lv D)
  lv_get vg name = get name vg.lvs
