-- ===== src/Vg/Create.antt =====
-- `VG::create` of src/vg.rs on one device that was just initialized, and the metadata that it leaves there.
use melvin.Prelude.{
  ℕ, ◌+◌, ◌-◌, ◌≤◌, ◌<◌, ◌≡◌, refl, ◌∙◌, false, List, [], ◌∷◌, ◌++◌, some, Bytes, bytes, same,
  length, from_utf8_lossy, two64, arith, inl, ok,
}
use melvin.Crates.{IsLittleEndian}
use melvin.BTree.{Ord, bytes_ord, contains_key, insert}
use melvin.Types.{Vg}
use melvin.Util.{hyphenate_uuid}
use melvin.Disk.{Disk, Devices, open_file, read}
use melvin.Parser.TextMap.{TextMap}
use melvin.Parser.Printer.{textmap_to_buf}
use melvin.Parser.Printable.{IsPrintable}
use melvin.PvLabel.Areas.{PvArea}
use melvin.PvLabel.Header.{fresh_header, find_in_dev}
use melvin.PvLabel.Mda.Text.{read_metadata}
use melvin.PvLabel.RoundTrip.{initialized, find_in_dev-initialized}
use melvin.PvLabel.FirstWrite.{mda0, mda1, mda0-IsReady, mda1-IsReady, read_metadata-initialized}
use melvin.Vg.System.{System}
use melvin.Vg.Commit.{disk_map, next_seqno}
use melvin.Vg.Commit.RoundTrip.{Target, AreTargets, commit_round_trip}
use melvin.Vg.Commit.Headers.{commit_headers}
use melvin.Vg.Physical.{create, add_all, pv_add, volume_of, new_vg}
use melvin.Vg.Text

-- The data area that `initialize` makes.
abbrev pub data_area : PvArea
data_area = record { offset = 1048576; size = 0 }

module _ {D : Type 0} ⦃o : Ord D⦄ where
  -- The group of one volume, before its first commit.
  abbrev pub group_of_one : Bytes → Bytes → Bytes → ℕ → Bytes → D → Vg D
  group_of_one name id uuid size path dev = record (new_vg name id) {
    pvs = (dev, volume_of (fresh_header uuid size path) dev data_area 8192) ∷ [];
  }

module _ {D : Type 0} ⦃o : Ord D⦄ (s : System D) (name path simple uuid id : Bytes) (dev : D)
    (d : Disk) (devices : Devices) (map : TextMap) (text : Bytes) (le : IsLittleEndian s.crates)
    (opened : open_file path devices ≡ ok (initialized s.crates simple d))
    (len : length simple ≡ 32) (named : hyphenate_uuid simple ≡ ok uuid)
    (vg_named : hyphenate_uuid s.simple ≡ ok id) (big : 2101248 ≤ d.size) (fits : d.size < two64)
    (unlabelled : same (read 0 8 d.store) (bytes "LABELONE") ≡ false)
    (from_path : s.from_str (from_utf8_lossy path) ≡ ok dev)
    (to_path : s.path_of (volume_of (fresh_header uuid d.size path) dev data_area 8192)
      ≡ ok (some path))
    (mapped : Text.to_textmap s.to_u64 (next_seqno (group_of_one name id uuid d.size path dev))
      ≡ ok map)
    (printable : IsPrintable (disk_map s name map))
    (printed : textmap_to_buf (disk_map s name map) ≡ ok text)
    (short : 512 + length (text ++ 0 ∷ []) ≤ 1048576 - 4096) where
  abbrev targets : List Target
  targets = record { path = path; area = mda0; areas = mda1 d ∷ [] } ∷ []

  found : find_in_dev s.crates path devices ≡ ok (fresh_header uuid d.size path)
  found =
      find_in_dev-initialized s.crates simple path uuid devices d le opened len named big fits
        unlabelled

  one-AreTargets :
      AreTargets s text
        (volume_of (fresh_header uuid d.size path) dev data_area 8192 ∷ [])
        targets
        devices
  one-AreTargets = (
    record {
      named = to_path;
      pvh = fresh_header uuid d.size path;
      header = found;
      at_path = refl;
      with_areas = refl;
      d = initialized s.crates simple d;
      opened = opened;
      ready = (
        mda0-IsReady s.crates le simple (text ++ 0 ∷ []) d big fits short,
        (mda1-IsReady s.crates le simple (text ++ 0 ∷ []) d big fits short, tt),
      );
      apart = ((inl (omega arith), tt), (tt, tt));
    },
    tt,
    tt,
  )

  -- The group is made, its map is read, and the header stays.
  pub create_found :
      (devices2 : Devices) × (create s name (path ∷ []) devices
        ≡ ok (next_seqno (group_of_one name id uuid d.size path dev), devices2))
      × (read_metadata s.crates path (mda0 ∷ mda1 d ∷ []) devices2 ≡ ok (disk_map s name map))
      × (find_in_dev s.crates path devices2 ≡ ok (fresh_header uuid d.size path))
  unfolding create add_all pv_add contains_key insert
  create_found =
      let vg = group_of_one name id uuid d.size path dev in
      let unwritten = read_metadata-initialized s.crates simple path devices d le opened big fits in
      let (devices2, done, written) =
        commit_round_trip s vg map text targets devices le mapped printable printed
          one-AreTargets in
      (
        devices2,
        rw (found, vg_named, from_path, unwritten, done) refl,
        written.0,
        commit_headers s path vg (next_seqno vg) map text targets devices devices2 mapped printed
              one-AreTargets ((inl (omega arith), (inl (omega arith), tt)), tt) done
            ∙ found,
      )

module _ {D : Type 0} ⦃o : Ord D⦄ where
  -- If byteorder is little-endian, the device at `path` was just initialized (with a hyphenated `uuid`, on at least 2101248 and fewer than
  -- 2^64 bytes with no label in the first sector), `path` names `dev`, `dev` is found at `path`, and the group's map is written and its frame
  -- can be printed and fits the first metadata area, then `create` makes the group of that one volume, in generation 1, and the frame
  -- with the group's map is read from the device.
  pub create_round_trip :
      (s : System D) (name path simple uuid id : Bytes) (dev : D) (d : Disk) (devices : Devices)
      (map : TextMap) (text : Bytes)
      → IsLittleEndian s.crates
      → open_file path devices ≡ ok (initialized s.crates simple d)
      → length simple ≡ 32
      → hyphenate_uuid simple ≡ ok uuid
      → hyphenate_uuid s.simple ≡ ok id
      → 2101248 ≤ d.size
      → d.size < two64
      → same (read 0 8 d.store) (bytes "LABELONE") ≡ false
      → s.from_str (from_utf8_lossy path) ≡ ok dev
      → s.path_of (volume_of (fresh_header uuid d.size path) dev data_area 8192) ≡ ok (some path)
      → Text.to_textmap s.to_u64 (next_seqno (group_of_one name id uuid d.size path dev)) ≡ ok map
      → IsPrintable (disk_map s name map)
      → textmap_to_buf (disk_map s name map) ≡ ok text
      → 512 + length (text ++ 0 ∷ []) ≤ 1048576 - 4096
      → (devices2 : Devices) × (create s name (path ∷ []) devices
          ≡ ok (next_seqno (group_of_one name id uuid d.size path dev), devices2))
        × (read_metadata s.crates path (mda0 ∷ mda1 d ∷ []) devices2 ≡ ok (disk_map s name map))
  create_round_trip s name path simple uuid id dev d devices map text le opened len named vg_named
        big fits unlabelled from_path to_path mapped printable printed short =
      let (devices2, done, written, _) =
        create_found s name path simple uuid id dev d devices map text le opened len named vg_named
          big fits unlabelled from_path to_path mapped printable printed short in
      (devices2, done, written)
