-- ===== src/PvLabel/Acts.antt =====
-- `PvHeader::initialize` of src/pvlabel.rs with the device as a failing call leaves it.
use melvin.Prelude.{
  ℕ, ◌+◌, ◌*◌, ◌==◌, ltb, false, ◌≡◌, refl, ap, ◌∙◌, if◌then◌else◌, List, [], ◌∷◌, Bytes, length,
  Result, ok, err, panicked, device_too_small, bind_assoc,
}
use melvin.Prelude
use melvin.Prelude.Act.{
  Act, ◌>>=◌, lift, reads, done, settled, settled-bind, returned, returned-reads, returned-if,
  returned-then,
}
use melvin.Crates.{Crates}
use melvin.BTree.{bytes_ord}
use melvin.BTree
use melvin.Util.{make_uuid, without_hyphens}
use melvin.Disk.Acts.{write_all_act, settled-write_all_act}
use melvin.Disk.{read, Disk, Devices, write_all, open_file}
use melvin.PvLabel.{sector_size, id_len, label_sector, default_mda_size, initialize_label}
use melvin.PvLabel.Areas.{PvArea, RawLocn}
use melvin.PvLabel.Header.{
  PvHeader, mda0_offset, fresh_header, header_sector, reset_areas, initialize,
}
use melvin.PvLabel.Mda.{write_mda_header}
use melvin.PvLabel.Mda.Acts.{
  write_mda_header_act, settled-write_mda_header, on_device, settled-on_device,
}

module _ (c : Crates) where
  reset_area : PvArea → Act Disk (Unit {0})
  reset_area area =
      write_mda_header_act c area (record { offset = 0; size = 0; checksum = 0; ignored = false })

  unfoldable pub reset_areas_act : List PvArea → Act Disk (Unit {0})
  unfolding reset_area
  reset_areas_act [] = done
  reset_areas_act (area ∷ areas) = do _ ← reset_area area; reset_areas_act areas

  -- The sector with the label, then the headers of the metadata areas.
  unfoldable pub format_act : Bytes → ℕ → List PvArea → Act Disk (Unit {0})
  unfolding reset_areas_act
  format_act id dev_size areas = do
    let sec_buf = initialize_label c (header_sector c id dev_size)
    _ ← write_all_act (label_sector * sector_size) (read 0 sector_size sec_buf)
    reset_areas_act areas

  unfoldable pub initialize_act : (Disk → Result ℕ) → Bytes → Bytes → Act Devices PvHeader
  unfolding format_act
  initialize_act blkdev_size simple path = do
    f ← reads (open_file path)
    dev_size ← lift (blkdev_size f)
    if ltb dev_size (default_mda_size * 2 + mda0_offset) then lift (err device_too_small) else (do
      uuid ← lift (make_uuid simple)
      let pvh = fresh_header uuid dev_size path
      let id = without_hyphens uuid
      if length id == id_len
          then (do
            _ ← λ devices. on_device devices path (ok f) (format_act id dev_size pvh.metadata_areas)
            lift (ok pvh))
          else lift panicked)

  settled-reset_areas :
      (areas : List PvArea) (f : Disk) → settled (reset_areas_act areas f) ≡ reset_areas c areas f
  unfolding reset_areas_act reset_areas reset_area
  settled-reset_areas [] f = refl
  settled-reset_areas (area ∷ areas) f =
      let fresh : RawLocn = record { offset = 0; size = 0; checksum = 0; ignored = false } in
      settled-bind (reset_area area) (reset_areas_act areas) (λ d. write_mda_header c area d fresh)
        (reset_areas c areas) (settled-write_mda_header c area fresh) (settled-reset_areas areas) f

  abbrev as_devices : Bytes → Devices → Disk → Result Devices
  as_devices path devices f = ok (BTree.insert path f devices)

  abbrev with_header : PvHeader → Devices → Result (PvHeader × Devices)
  with_header pvh devices = ok (pvh, devices)

  settled-format :
      (id : Bytes) (dev_size : ℕ) (areas : List PvArea) (f : Disk)
      → settled (format_act id dev_size areas f)
        ≡ Prelude.◌>>=◌
            (write_all f
              (label_sector * sector_size)
              (read 0 sector_size (initialize_label c (header_sector c id dev_size))))
            (reset_areas c areas)
  unfolding format_act
  settled-format id dev_size areas f =
      let sector = read 0 sector_size (initialize_label c (header_sector c id dev_size)) in
      let p = label_sector * sector_size in
      settled-bind (write_all_act p sector) (reset_areas_act areas) (λ d. write_all d p sector)
        (reset_areas c areas) (settled-write_all_act p sector) (settled-reset_areas areas) f

  -- What is formatted, under its path, with its header.
  formatted :
      (pvh : PvHeader) (id path : Bytes) (dev_size : ℕ) (f : Disk) (devices : Devices)
      → Prelude.◌>>=◌
          (settled (on_device devices path (ok f) (format_act id dev_size pvh.metadata_areas)))
          (with_header pvh)
        ≡ Prelude.◌>>=◌
            (write_all f
              (label_sector * sector_size)
              (read 0 sector_size (initialize_label c (header_sector c id dev_size))))
            (λ f1.
              Prelude.◌>>=◌
                (reset_areas c pvh.metadata_areas f1)
                (λ f2. with_header pvh (BTree.insert path f2 devices)))
  formatted pvh id path dev_size f devices =
      let sector = read 0 sector_size (initialize_label c (header_sector c id dev_size)) in
      let label = write_all f (label_sector * sector_size) sector in
      let reset = reset_areas c pvh.metadata_areas in
      let put = as_devices path devices in
      let pair = with_header pvh in
      ap (λ r. Prelude.◌>>=◌ r pair)
        (settled-on_device devices path (ok f) (format_act id dev_size pvh.metadata_areas) _
            (λ d. refl)
          ∙ ap (λ r. Prelude.◌>>=◌ r put) (settled-format id dev_size pvh.metadata_areas f))
      ∙ bind_assoc (Prelude.◌>>=◌ label reset) put pair
      ∙ bind_assoc label reset (λ f2. with_header pvh (BTree.insert path f2 devices))

  -- `initialize`, run write by write, ends as the function that returns no device on a failure, and if
  -- it succeeds, with the same header and devices.
  pub returned-initialize :
      (blkdev_size : Disk → Result ℕ) (simple path : Bytes) (devices : Devices)
      → returned (initialize_act blkdev_size simple path devices)
        ≡ initialize c blkdev_size simple path devices
  unfolding initialize_act format_act initialize
  returned-initialize blkdev_size simple path devices =
      returned-reads (open_file path) _ devices _ (λ f.
        returned-reads (λ _. blkdev_size f) _ devices _
          (λ dev_size.
            returned-if (ltb dev_size (default_mda_size * 2 + mda0_offset)) _ _ devices refl (
              returned-reads (λ _. make_uuid simple) _ devices _
                (λ uuid.
                  let pvh = fresh_header uuid dev_size path in
                  let id = without_hyphens uuid in
                  returned-if (length id == id_len) _ _ devices
                    (returned-then
                        (λ ds. on_device ds path (ok f) (format_act id dev_size pvh.metadata_areas))
                        pvh devices
                      ∙ formatted pvh id path dev_size f devices)
                    refl))))
