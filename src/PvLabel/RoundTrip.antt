-- ===== src/PvLabel/RoundTrip.antt =====
-- A device that `PvHeader::initialize` of src/pvlabel.rs initialized, and `find_in_dev` on it.
use melvin.Prelude.{
  ltb, same, false, ℕ, ◌+◌, ◌-◌, ◌<◌, ◌≤◌, ◌≡◌, refl, ◌∙◌, Bytes, bytes, length, Result, ok, ◌>>=◌,
  two64, arith, inl, All, ◌≢◌,
}
use mathlib.Core.Path.{subst⁻¹}
use melvin.Crates.{Crates, IsLittleEndian, IsLittleEndian-little_endian, little_endian}
use melvin.BTree.{bytes_ord}
use melvin.BTree
use melvin.Util.{hyphenate_uuid, without_hyphens}
use melvin.Util.Hyphens.{without_hyphens-hyphenate_uuid}
use melvin.Disk.{write, read, Disk, Devices, open_file}
use melvin.Disk.Laws.{read-write_outside, length-read, write_all-inside}
use melvin.PvLabel.{initialize_label}
use melvin.PvLabel.Areas.{PvArea, RawLocn}
use melvin.PvLabel.Header.{
  PvHeader, find_on, find_in_dev, fresh_header, header_sector, reset_areas, initialize,
}
use melvin.PvLabel.Mda.{mda_header}
use melvin.PvLabel.Mda.RoundTrip.{with_header, write_mda_header-inside}
use melvin.PvLabel.Mda.Devices.{open_file-insert}
use melvin.PvLabel.Found.{find_on-labelled}

abbrev pub zero_locn : RawLocn
zero_locn = record { offset = 0; size = 0; checksum = 0; ignored = false }

-- The device behind `initialize`.
abbrev pub initialized : Crates → Bytes → Disk → Disk
initialized c simple d =
    with_header c (record { offset = d.size - 1048576; size = 1048576 }) zero_locn
      (with_header c (record { offset = 4096; size = 1048576 - 4096 }) zero_locn
        (record d {
          store =
              write 512 (read 0 512 (initialize_label c (header_sector c simple d.size))) d.store;
        }))

module _ (c : Crates) (simple path : Bytes) (d : Disk) (len : length simple ≡ 32)
    (big : 2101248 ≤ d.size) where
  reset_areas-initialized :
      (uuid : Bytes)
      → reset_areas c (fresh_header uuid d.size path).metadata_areas (record d {
        store = write 512 (read 0 512 (initialize_label c (header_sector c simple d.size))) d.store;
      })
        ≡ ok (initialized c simple d)
  unfolding reset_areas
  reset_areas-initialized uuid =
      let d1 = record d {
        store = write 512 (read 0 512 (initialize_label c (header_sector c simple d.size))) d.store;
      } in
      let a0 : PvArea = record { offset = 4096; size = 1048576 - 4096 } in
      rw
        (
          write_mda_header-inside c (record { offset = 4096; size = 1048576 - 4096 }) zero_locn d1
              (omega arith),
          write_mda_header-inside c (record { offset = d.size - 1048576; size = 1048576 }) zero_locn
              (with_header c a0 zero_locn d1) (omega arith),
        )
        refl

  -- The first sectors, of which the headers of the areas leave all alone.
  front-initialized :
      read 0 2048 (initialized c simple d).store
      ≡ read 0 2048
          (write 512 (read 0 512 (initialize_label c (header_sector c simple d.size))) d.store)
  front-initialized =
      let d1 = record d {
        store = write 512 (read 0 512 (initialize_label c (header_sector c simple d.size))) d.store;
      } in
      let a0 : PvArea = record { offset = 4096; size = 1048576 - 4096 } in
      let a1 : PvArea = record { offset = d.size - 1048576; size = 1048576 } in
      read-write_outside 0 2048 (d.size - 1048576) (mda_header c a1 zero_locn)
        (with_header c a0 zero_locn d1).store (inl (omega arith))
      ∙ read-write_outside 0 2048 4096 (mda_header c a0 zero_locn) d1.store (inl (omega arith))

  pub initialize-initialized :
      (blkdev_size : Disk → Result ℕ) (uuid : Bytes) (devices : Devices)
      → open_file path devices ≡ ok d
      → blkdev_size d ≡ ok d.size
      → hyphenate_uuid simple ≡ ok uuid
      → without_hyphens uuid ≡ simple
      → initialize c blkdev_size simple path devices
        ≡ ok (fresh_header uuid d.size path, BTree.insert path (initialized c simple d) devices)
  unfolding initialize
  initialize-initialized blkdev_size uuid devices opened sized named stripped =
      let enough : ltb d.size 2101248 ≡ false = ground arith in
      let sec = initialize_label c (header_sector c simple d.size) in
      let room : 512 + length (read 0 512 sec) ≤ d.size = omega (arith, length-read 0 512 sec) in
      rw
        (
          opened,
          sized,
          enough,
          named,
          stripped,
          len,
          write_all-inside d 512 (read 0 512 sec) room,
          reset_areas-initialized uuid,
        )
        refl

-- On a device that was just initialized, `find_in_dev` finds the header.
pub find_in_dev-initialized :
    (c : Crates) (simple path uuid : Bytes) (devices : Devices) (d : Disk)
    → IsLittleEndian c
    → open_file path devices ≡ ok (initialized c simple d)
    → length simple ≡ 32
    → hyphenate_uuid simple ≡ ok uuid
    → 2101248 ≤ d.size
    → d.size < two64
    → same (read 0 8 d.store) (bytes "LABELONE") ≡ false
    → find_in_dev c path devices ≡ ok (fresh_header uuid d.size path)
unfolding find_in_dev
find_in_dev-initialized c simple path uuid devices d h opened len named big fits unlabelled =
    let le = little_endian c in
    let found : find_on le (initialized le simple d) path ≡ ok (fresh_header uuid d.size path) =
      find_on-labelled c uuid simple path d.size d.store len fits (omega arith) named unlabelled
        (initialized le simple d) (omega arith) (front-initialized le simple path d len big) in
    rw opened (
      subst⁻¹ (λ x. find_on x (initialized x simple d) path ≡ ok (fresh_header uuid d.size path))
        (IsLittleEndian-little_endian c h) found)

-- If byteorder is little-endian, the first sector has no label, the identifier has 32 bytes, ASCII and none a hyphen, and the device has at least 2101248
-- bytes and fewer than 2^64, then `initialize` succeeds, and `find_in_dev` finds the header that it returned.
pub find_in_dev-initialize :
    (c : Crates) (blkdev_size : Disk → Result ℕ) (simple path : Bytes) (devices : Devices)
    (d : Disk)
    → IsLittleEndian c
    → open_file path devices ≡ ok d
    → blkdev_size d ≡ ok d.size
    → length simple ≡ 32
    → All (λ b. b < 128) simple
    → All (λ b. b ≢ b'-') simple
    → 2101248 ≤ d.size
    → d.size < two64
    → same (read 0 8 d.store) (bytes "LABELONE") ≡ false
    → (pvh : PvHeader) × (devices2 : Devices) × (initialize c blkdev_size simple path devices
        ≡ ok (pvh, devices2))
      × (find_in_dev c path devices2 ≡ ok pvh)
unfolding find_in_dev
find_in_dev-initialize c blkdev_size simple path devices d h opened sized len ascii plain big fits
      unlabelled =
    let (uuid, named, stripped) = without_hyphens-hyphenate_uuid simple ascii plain len in
    let le = little_endian c in
    let d2 = initialized le simple d in
    subst⁻¹
      (λ x.
        (pvh : PvHeader) × (devices2 : Devices) × (initialize x blkdev_size simple path devices
          ≡ ok (pvh, devices2))
        × ((open_file path devices2 >>= λ f. find_on x f path) ≡ ok pvh))
      (IsLittleEndian-little_endian c h)
      (
        fresh_header uuid d.size path,
        BTree.insert path d2 devices,
        initialize-initialized le simple path d len big blkdev_size uuid devices opened sized named
            stripped,
        rw (open_file-insert path d2 devices) (
            find_on-labelled c uuid simple path d.size d.store len fits (omega arith) named
              unlabelled d2 (omega arith) (front-initialized le simple path d len big)),
      )
