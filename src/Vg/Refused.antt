-- ===== src/Vg/Refused.antt =====
-- A device that holds the metadata of a group is refused by `pv_add` and `create` of src/vg.rs.
use melvin.Prelude.{
  ◌+◌, ◌-◌, ◌≤◌, ◌<◌, ◌≡◌, refl, false, [], ◌∷◌, ◌++◌, some, Bytes, bytes, same, length,
  from_utf8_lossy, two64, ok, err, pv_in_named_vg,
}
use melvin.Crates.{IsLittleEndian}
use melvin.BTree.{Ord, bytes_ord}
use melvin.Types.{Vg}
use melvin.Util.{hyphenate_uuid}
use melvin.Disk.{Disk, Devices, open_file, read}
use melvin.Parser.TextMap.{TextMap}
use melvin.Parser.Printer.{textmap_to_buf}
use melvin.Parser.Printable.{IsPrintable}
use melvin.PvLabel.Header.{PvHeader, fresh_header, find_in_dev}
use melvin.PvLabel.Mda.Text.{read_metadata}
use melvin.PvLabel.RoundTrip.{initialized}
use melvin.Vg.System.{System}
use melvin.Vg.Commit.{disk_map, next_seqno}
use melvin.Vg.Physical.{create, pv_add, add_all, volume_of}
use melvin.Vg.Create.{group_of_one, data_area, create_found}
use melvin.Vg.Text

module _ {D : Type 0} ⦃o : Ord D⦄ (s : System D) where
  -- A device whose metadata can be read is not added to a group, and no group is made of it first.
  pub pv_add-pv_in_named_vg :
      (path : Bytes) (dev : D) (pvh : PvHeader) (metadata : TextMap) (vg : Vg D) (devices : Devices)
      → find_in_dev s.crates path devices ≡ ok pvh
      → s.from_str (from_utf8_lossy path) ≡ ok dev
      → read_metadata s.crates pvh.dev_path pvh.metadata_areas devices ≡ ok metadata
      → pv_add s path vg devices ≡ err pv_in_named_vg
  unfolding pv_add
  pv_add-pv_in_named_vg path dev pvh metadata vg devices header named found =
      rw (header, named, found) refl

module _ {D : Type 0} ⦃o : Ord D⦄ where
  -- If byteorder is little-endian, the device at `path` was just initialized (with a hyphenated
  -- `uuid`, on at least 2101248 and fewer than 2^64 bytes with no label in the first sector), `path`
  -- names `dev`, `dev` is found at `path`, and the group's map is written and its frame can be printed
  -- and fits the first metadata area, then `create` succeeds on it, and then `pv_add` of the device to
  -- any group and a second `create` on it, under any name, fail: the device is in a group.
  pub create_refused :
      (s : System D) (name path simple uuid id : Bytes) (dev : D) (d : Disk) (devices : Devices)
      (map : TextMap) (text : Bytes) (other_name : Bytes) (other : Vg D)
      → IsLittleEndian s.crates
      → open_file path devices ≡ ok (initialized s.crates simple d)
      → length simple ≡ 32
      → hyphenate_uuid simple ≡ ok uuid
      → hyphenate_uuid s.simple ≡ ok id
      → 2101248 ≤ d.size
      → d.size < two64
      → same (read 0 8 d.store) (bytes "LABELONE") ≡ false
      → s.from_str (from_utf8_lossy path) ≡ ok dev
      → s.path_of (volume_of (fresh_header uuid d.size path) dev data_area 8192) ≡ ok (some path)
      → Text.to_textmap s.to_u64 (next_seqno (group_of_one name id uuid d.size path dev)) ≡ ok map
      → IsPrintable (disk_map s name map)
      → textmap_to_buf (disk_map s name map) ≡ ok text
      → 512 + length (text ++ 0 ∷ []) ≤ 1048576 - 4096
      → (vg : Vg D) × (devices2 : Devices) × (create s name (path ∷ []) devices ≡ ok (vg, devices2))
        × (pv_add s path other devices2 ≡ err pv_in_named_vg)
        × (create s other_name (path ∷ []) devices2 ≡ err pv_in_named_vg)
  unfolding create add_all
  create_refused s name path simple uuid id dev d devices map text other_name other le opened len
        named vg_named big fits unlabelled from_path to_path mapped printable printed short =
      let pvh = fresh_header uuid d.size path in
      let (devices2, done, found, header) =
        create_found s name path simple uuid id dev d devices map text le opened len named vg_named
          big fits unlabelled from_path to_path mapped printable printed short in
      let refused = λ (vg : Vg D).
        pv_add-pv_in_named_vg s path dev pvh (disk_map s name map) vg devices2 header from_path
          found in
      (
        next_seqno (group_of_one name id uuid d.size path dev),
        devices2,
        done,
        refused other,
        rw (header, vg_named, refused) refl,
      )
