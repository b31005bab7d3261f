-- ===== src/Vg/Logical.antt =====
-- `VG::lv_create_linear`, `lv_create_thinpool` and `lv_remove` of src/vg.rs.
use melvin.Prelude.{
  ℕ, ◌==◌, true, false, if◌then◌else◌, [], ◌∷◌, ◌++◌, none, Bytes, bytes, Result, err, ◌>>=◌, ok_or,
  expect, lv_exists, no_contiguous_area, meta_lv_not_found, data_lv_not_found, lv_not_found,
}
use melvin.BTree.{Ord, bytes_ord, contains_key, remove, get}
use melvin.BTree
use melvin.Types.{Lv, Vg, Segment, striped, thinpool, passdown}
use melvin.Lv
use melvin.Disk.{Devices}
use melvin.Util.{make_uuid}
use melvin.Vg.{free_areas, find_contig}
use melvin.Vg.System.{System}
use melvin.Vg.Commit.{commit}

-- 64 KiB
abbrev default_thinpool_chunk_size : ℕ
default_thinpool_chunk_size = 128

-- `replace("-", "--")`
abbrev pub doubled_hyphens : Bytes → Bytes
doubled_hyphens [] = []
doubled_hyphens (c ∷ cs) =
    if c == b'-' then b'-' ∷ b'-' ∷ doubled_hyphens cs else c ∷ doubled_hyphens cs

module _ {D : Type 0} where
  -- A volume with one segment, which no device stands for yet.
  abbrev pub new_lv : System D → Bytes → Bytes → Segment D → Lv D
  new_lv s name id segment = record {
    name = name;
    id = id;
    status = bytes "READ" ∷ bytes "WRITE" ∷ bytes "VISIBLE" ∷ [];
    flags = [];
    creation_host = s.nodename;
    creation_time = s.now;
    segments = segment ∷ [];
    device = none;
  }

  abbrev pub linear_segment : D → ℕ → ℕ → Segment D
  linear_segment dev area_start extent_size = striped (record {
    start_extent = 0;
    extent_count = extent_size;
    stripe_size = none;
    stripes = (dev, area_start) ∷ [];
  })

  abbrev pub thinpool_segment : ℕ → Bytes → Bytes → Segment D
  thinpool_segment extent_count thin_meta thin_data = thinpool (record {
    start_extent = 0;
    extent_count = extent_count;
    metadata_lv = thin_meta;
    data_lv = thin_data;
    transaction_id = 1;
    chunk_size = default_thinpool_chunk_size;
    discards = passdown;
    zero_new_blocks = true;
  })

  -- The device mapper is told of a new device: one line over the whole free area.
  unfoldable pub set_up : System D → Bytes → D → ℕ → ℕ → Result (Unit {0})
  set_up s lv_name dev area_start len = do
    _ ← s.dm_new
    name ← expect (s.dm_name lv_name)
    expect (
        s.linear_setup name (
          record {
            start = 0;
            length = len;
            device = s.from_u64 (s.to_u64 dev);
            offset = area_start;
          }
          ∷ []))

  -- The device `name` gets another name.
  unfoldable pub rename_device : System D → Bytes → Bytes → Result (Unit {0})
  rename_device s name new_name = do
    from ← s.dm_name name
    to ← s.dm_name new_name
    s.device_rename from to

module _ {D : Type 0} ⦃o : Ord D⦄ where
  unfoldable pub lv_create_linear : System D → Bytes → ℕ → Vg D → Devices → Result (Vg D × Devices)
  lv_create_linear s name extent_size vg devices =
      if contains_key name vg.lvs then err lv_exists else (do
        free ← free_areas vg
        (dev, area_start, len) ← ok_or (find_contig extent_size free none) no_contiguous_area
        id ← make_uuid s.simple
        _ ←
            set_up s (doubled_hyphens vg.name ++ (bytes "-" ++ doubled_hyphens name)) dev area_start
              len
        let lv = new_lv s name id (linear_segment dev area_start extent_size)
        commit s (record vg { lvs = BTree.insert name lv vg.lvs }) devices)

  unfoldable pub lv_create_thinpool :
      System D → Bytes → Bytes → Bytes → Vg D → Devices → Result (Vg D × Devices)
  lv_create_thinpool s name thin_meta thin_data vg devices = do
    _ ← s.dm_new
    meta_lv ← ok_or (get thin_meta vg.lvs) meta_lv_not_found
    let meta_name = name ++ bytes "_tmeta"
    _ ← rename_device s name meta_name
    let lvs = BTree.insert thin_meta (record meta_lv { name = meta_name }) vg.lvs
    _ ← ok_or (get thin_data lvs) data_lv_not_found
    _ ← rename_device s name (name ++ bytes "_tdata")
    id ← make_uuid s.simple
    _ ← s.dm_new
    dm_name ← s.dm_name name
    _ ← s.device_suspend dm_name false
    let lv = new_lv s name id (thinpool_segment (Lv.used_extents meta_lv) thin_meta thin_data)
    commit s (record vg { lvs = BTree.insert name lv lvs }) devices

  unfoldable pub lv_remove : System D → Bytes → Vg D → Devices → Result (Vg D × Devices)
  lv_remove s name vg devices = do
    lv ← ok_or (get name vg.lvs) lv_not_found
    _ ← s.dm_new
    dm_name ← s.dm_name lv.name
    _ ← s.device_suspend dm_name true
    _ ← s.device_remove dm_name
    commit s (record vg { lvs = remove name vg.lvs }) devices
