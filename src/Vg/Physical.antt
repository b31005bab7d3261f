-- ===== src/Vg/Physical.antt =====
-- `VG::create`, `pv_add` and `pv_remove` of src/vg.rs.
use melvin.Prelude.{
  ℕ, zero, suc, ◌+◌, ◌/◌, ◌==◌, Bool, false, ◌||◌, if◌then◌else◌, List, [], ◌∷◌, Option, none, some,
  Bytes, bytes, from_utf8_lossy, length, Result, ok, err, panicked, out_of_fuel, ◌>>=◌, ok_or,
  pvs_required, no_metadata_area, pv_in_vg, pv_in_named_vg, no_data_area, pv_in_use, pv_not_removed,
}
use melvin.BTree.{Ord, contains_key, remove, values}
use melvin.BTree
use melvin.Types.{Pv, Lv, Vg, Segment}
use melvin.Lv.Segments.{pv_dependencies}
use melvin.Parser.TextMap.{TextMap}
use melvin.Disk.{Devices}
use melvin.Util.{align_to, make_uuid}
use melvin.PvLabel.{sector_size}
use melvin.PvLabel.Areas.{PvArea}
use melvin.PvLabel.Header.{PvHeader, find_in_dev}
use melvin.PvLabel.Mda.Text.{read_metadata, sub_u64}
use melvin.Vg.System.{System}
use melvin.Vg.Commit.{commit}

-- 4 MiB
abbrev pub default_extent_size : ℕ
default_extent_size = 8192

abbrev pub nth_area : ℕ → List PvArea → Option PvArea
nth_area n [] = none
nth_area zero (a ∷ areas) = some a
nth_area (suc n) (a ∷ areas) = nth_area n areas

-- The size of the second metadata area in sectors.
abbrev pub mda1_sectors : Option PvArea → ℕ
mda1_sectors none = 0
mda1_sectors (some area) = area.size / sector_size

-- Metadata that can be read says that the volume is in a group already.
abbrev pub unaffiliated : Result TextMap → Result (Unit {0})
unaffiliated (ok metadata) = err pv_in_named_vg
unaffiliated (err e) = ok tt
unaffiliated panicked = panicked
unaffiliated out_of_fuel = out_of_fuel

-- The metadata areas of all headers.
pub count_areas : List PvHeader → ℕ
count_areas [] = 0
count_areas (pvh ∷ pvhs) = length pvh.metadata_areas + count_areas pvhs

module _ {D : Type 0} where
  -- The volume of a header, whose data area starts at `da`, in extents of `extent_size` sectors.
  unfoldable pub volume_of : PvHeader → D → PvArea → ℕ → Pv D
  volume_of pvh dev da extent_size =
      let dev_size_sectors = pvh.size / sector_size in
      let pe_start_sectors = align_to (da.offset / sector_size) extent_size in
      let mda1_size_sectors = mda1_sectors (nth_area 1 pvh.metadata_areas) in
      let area_size_sectors =
        sub_u64 (sub_u64 dev_size_sectors pe_start_sectors) mda1_size_sectors in
      record {
        id = pvh.uuid;
        device = dev;
        status = bytes "ALLOCATABLE" ∷ [];
        flags = [];
        dev_size = dev_size_sectors;
        pe_start = pe_start_sectors;
        pe_count = area_size_sectors / extent_size;
      }

module _ {D : Type 0} ⦃o : Ord D⦄ where
  abbrev pub any_device : D → List D → Bool
  any_device dev [] = false
  any_device dev (seg_dev ∷ devs) = o.eq seg_dev dev || any_device dev devs

  abbrev pub any_segment : D → List (Segment D) → Bool
  any_segment dev [] = false
  any_segment dev (seg ∷ segs) = any_device dev (pv_dependencies seg) || any_segment dev segs

  -- The three loops of `pv_remove`.
  abbrev pub in_use : D → List (Lv D) → Bool
  in_use dev [] = false
  in_use dev (lv ∷ lvs) = any_segment dev lv.segments || in_use dev lvs

  -- A division by an extent size of 0 panics.
  unfoldable pub pv_add : System D → Bytes → Vg D → Devices → Result (Vg D × Devices)
  pv_add s path vg devices = do
    pvh ← find_in_dev s.crates path devices
    dev ← s.from_str (from_utf8_lossy path)
    _ ← unaffiliated (read_metadata s.crates pvh.dev_path pvh.metadata_areas devices)
    da ← ok_or (nth_area 0 pvh.data_areas) no_data_area
    if vg.extent_size == 0
        then panicked
        else if contains_key dev vg.pvs
        then err pv_in_vg
        else commit s
            (record vg { pvs = BTree.insert dev (volume_of pvh dev da vg.extent_size) vg.pvs })
            devices

  unfoldable pub pv_remove : System D → PvHeader → Vg D → Devices → Result (Vg D × Devices)
  pv_remove s pvh vg devices = do
    dev ← s.from_str (from_utf8_lossy pvh.dev_path)
    if in_use dev (values vg.lvs)
        then err pv_in_use
        else if contains_key dev vg.pvs
        then commit s (record vg { pvs = remove dev vg.pvs }) devices
        else err pv_not_removed

  pub find_all : System D → List Bytes → Devices → Result (List PvHeader)
  find_all s [] devices = ok []
  find_all s (path ∷ paths) devices = do
    pvh ← find_in_dev s.crates path devices
    pvhs ← find_all s paths devices
    ok (pvh ∷ pvhs)

  unfoldable pub add_all : System D → List Bytes → Vg D → Devices → Result (Vg D × Devices)
  add_all s [] vg devices = ok (vg, devices)
  add_all s (path ∷ paths) vg devices = do
    added ← pv_add s path vg devices
    add_all s paths added.0 added.1

  abbrev pub new_vg : Bytes → Bytes → Vg D
  new_vg name id = record {
    name = name;
    id = id;
    seqno = 0;
    format = bytes "lvm2";
    status = bytes "READ" ∷ bytes "WRITE" ∷ bytes "RESIZEABLE" ∷ [];
    flags = [];
    extent_size = default_extent_size;
    max_lv = 0;
    max_pv = 0;
    metadata_copies = 0;
    pvs = [];
    lvs = [];
  }

  unfoldable pub create : System D → Bytes → List Bytes → Devices → Result (Vg D × Devices)
  unfolding find_all count_areas
  create s name [] devices = err pvs_required
  create s name (path ∷ paths) devices = do
    pvhs ← find_all s (path ∷ paths) devices
    if count_areas pvhs == 0
        then err no_metadata_area
        else make_uuid s.simple >>= λ id. add_all s (path ∷ paths) (new_vg name id) devices
