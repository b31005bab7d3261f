-- ===== src/PvLabel/Header.antt =====
-- `PvHeader` of src/pvlabel.rs: reading it from a device, and initializing a device.
use melvin.Prelude.{
  ℕ, ◌+◌, ◌-◌, ◌*◌, ◌/◌, ◌%◌, ◌==◌, ltb, Bool, true, false, if◌then◌else◌, List, [], ◌∷◌, ◌++◌,
  Option, Bytes, length, Result, ok, err, panicked, out_of_fuel, ◌>>=◌, device_too_small, unwrap,
}
use melvin.Crates.{Crates}
use melvin.BTree.{bytes_ord}
use melvin.BTree
use melvin.Util.{hyphenate_uuid, make_uuid, without_hyphens}
use melvin.Disk.{
  Store, write, read, zeroed, zeros, Disk, Devices, read_into, write_all, open_file, slice_of,
  slice_from,
}
use melvin.PvLabel.{
  sector_size, id_len, label_size, label_sector, default_mda_size, extension_version,
  label_from_buf, initialize_label,
}
use melvin.PvLabel.Areas.{PvArea, iter_pv_area}
use melvin.PvLabel.Mda.{write_mda_header}

pub record PvHeader : Type 0 where
  pub uuid : Bytes
  pub size : ℕ
  pub ext_version : ℕ
  pub ext_flags : ℕ
  pub data_areas : List PvArea
  pub metadata_areas : List PvArea
  pub bootloader_areas : List PvArea
  pub dev_path : Bytes

-- mda0 starts at the ninth sector.
abbrev pub mda0_offset : ℕ
mda0_offset = 8 * sector_size

-- The struct that `initialize` makes.
abbrev pub fresh_header : Bytes → ℕ → Bytes → PvHeader
fresh_header uuid dev_size path = record {
  uuid = uuid;
  size = dev_size;
  ext_version = extension_version;
  ext_flags = 0;
  data_areas = record { offset = mda0_offset + (default_mda_size - mda0_offset); size = 0 } ∷ [];
  metadata_areas =
      record { offset = mda0_offset; size = default_mda_size - mda0_offset }
      ∷ record { offset = dev_size - default_mda_size; size = default_mda_size }
      ∷ [];
  bootloader_areas = [];
  dev_path = path;
}

-- `S_IFBLK`: the bits of 0x6000
abbrev pub is_block : ℕ → Bool
is_block st_mode = st_mode / 0x2000 % 4 == 3

abbrev pub is_ok : Result PvHeader → Result Bool
is_ok (ok _) = ok true
is_ok (err _) = ok false
is_ok panicked = panicked
is_ok out_of_fuel = out_of_fuel

module _ (c : Crates) where
  -- The extension header: its flags and the bootloader areas, if there is a version.
  unfoldable pub extension : ℕ → Bytes → Result (ℕ × List PvArea)
  extension ext_version da_buf = if ext_version == 0 then ok (0, []) else (do
    b ← slice_of da_buf 4 8
    rest ← slice_from da_buf 8
    ba_vec ← iter_pv_area c rest
    ok (c.read_u32 b, ba_vec))

  -- `PvHeader::from_buf`
  unfoldable pub header_from_buf : Bytes → Bytes → Result PvHeader
  header_from_buf buf path = do
    da_buf ← slice_from buf (id_len + 8)
    da_vec ← iter_pv_area c da_buf
    md_buf ← slice_from da_buf ((length da_vec + 1) * 16)
    md_vec ← iter_pv_area c md_buf
    ext_buf ← slice_from md_buf ((length md_vec + 1) * 16)
    b ← slice_of ext_buf 0 4
    let ext_version = c.read_u32 b
    ext ← extension ext_version ext_buf
    id ← slice_of buf 0 id_len
    uuid ← hyphenate_uuid id
    b_size ← slice_of buf id_len (id_len + 8)
    ok (record {
      uuid = uuid;
      size = c.read_u64 b_size;
      ext_version = ext_version;
      ext_flags = ext.0;
      data_areas = da_vec;
      metadata_areas = md_vec;
      bootloader_areas = ext.1;
      dev_path = path;
    })

  -- The header on a device that is open.
  unfoldable pub find_on : Disk → Bytes → Result PvHeader
  find_on f path = do
    let buf = read_into f 0 (zeros (4 * sector_size))
    label_header ← label_from_buf c buf
    pv_buf ← slice_from buf label_header.offset
    header_from_buf pv_buf path

  -- `PvHeader::find_in_dev`
  unfoldable pub find_in_dev : Bytes → Devices → Result PvHeader
  find_in_dev path devices = open_file path devices >>= λ f. find_on f path

  -- "Translate to on-disk format": the sector without its label. `uuid` has no hyphens.
  unfoldable pub header_sector : Bytes → ℕ → Store
  header_sector uuid dev_size =
      let s1 = write label_size uuid zeroed in
      let s2 = write (label_size + id_len) (c.write_u64 dev_size) s1 in
      let s3 = write 72 (c.write_u64 (mda0_offset + (default_mda_size - mda0_offset))) s2 in
      let s4 = write 80 (c.write_u64 0) s3 in
      let s5 = write 104 (c.write_u64 mda0_offset) s4 in
      let s6 = write 112 (c.write_u64 (default_mda_size - mda0_offset)) s5 in
      let s7 = write 120 (c.write_u64 (dev_size - default_mda_size)) s6 in
      let s8 = write 128 (c.write_u64 default_mda_size) s7 in
      write 152 (c.write_u32 extension_version) s8

  -- `for area in &pvh.metadata_areas`
  unfoldable pub reset_areas : List PvArea → Disk → Result Disk
  reset_areas [] f = ok f
  reset_areas (area ∷ areas) f = do
    f1 ← write_mda_header c area f (record { offset = 0; size = 0; checksum = 0; ignored = false })
    reset_areas areas f1

  -- `PvHeader::initialize`. `blkdev_size` is what the ioctl says of the device, and `simple` the
  -- identifier that the uuid crate makes.
  unfoldable pub initialize :
      (Disk → Result ℕ) → Bytes → Bytes → Devices → Result (PvHeader × Devices)
  initialize blkdev_size simple path devices = do
    f ← open_file path devices
    dev_size ← blkdev_size f
    if ltb dev_size (default_mda_size * 2 + mda0_offset) then err device_too_small else (do
      uuid ← make_uuid simple
      let pvh = fresh_header uuid dev_size path
      let id = without_hyphens uuid
      if length id == id_len
          then (do
            let sec_buf = initialize_label c (header_sector id dev_size)
            f1 ← write_all f (label_sector * sector_size) (read 0 sector_size sec_buf)
            f2 ← reset_areas pvh.metadata_areas f1
            ok (pvh, BTree.insert path f2 devices))
          else panicked)

  -- The paths of one directory. `stat` is the mode of a path; where it fails, that is a panic.
  unfoldable pub labelled : (Bytes → Option ℕ) → Devices → List Bytes → Result (List Bytes)
  labelled stat devices [] = ok []
  labelled stat devices (path ∷ paths) = do
    st_mode ← unwrap (stat path)
    found ← if is_block st_mode then is_ok (find_in_dev path devices) else ok false
    rest ← labelled stat devices paths
    ok (if found then path ∷ rest else rest)

  -- `pvheader_scan`. `read_dir` is what the directory holds.
  unfoldable pub pvheader_scan :
      (Bytes → Result (List Bytes))
      → (Bytes → Option ℕ)
      → Devices
      → List Bytes
      → Result (List Bytes)
  pvheader_scan read_dir stat devices [] = ok []
  pvheader_scan read_dir stat devices (dir ∷ dirs) = do
    paths ← read_dir dir
    found ← labelled stat devices paths
    rest ← pvheader_scan read_dir stat devices dirs
    ok (found ++ rest)
