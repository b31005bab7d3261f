-- ===== src/PvLabel/Found.antt =====
-- What `find_in_dev` of src/pvlabel.rs finds on a device that begins as `initialize` leaves it.
use melvin.Prelude.{
  same, true, false, ℕ, ◌+◌, ◌-◌, ◌<◌, ◌≤◌, ◌≡◌, refl, ap, ◌∙◌, ◌∷◌, [], Bytes, bytes, take, length,
  ok, two64, arith, inl, same_refl,
}
use melvin.Crates.{Crates, little_endian, read_le}
use melvin.BTree.{bytes_ord}
use melvin.Util.{hyphenate_uuid}
use melvin.Disk.{Store, write, read, Disk}
use melvin.Disk.Laws.{read-write_outside, read-write_within, take-read, read_into-zeros}
use melvin.PvLabel.{LabelHeader, label_of, scan, label_from_buf}
use melvin.PvLabel.Areas.{iter_pv_area}
use melvin.PvLabel.Iter.{
  slice_of-read, slice_from-read, iter_pv_area-read, collect_areas-end, collect_areas-more,
}
use melvin.PvLabel.Header.{header_from_buf, extension, find_on, fresh_header}
use melvin.PvLabel.Fresh
use melvin.PvLabel.Fresh.{sector}

module _ (c : Crates) (uuid simple path : Bytes) (dev_size : ℕ) (s : Store)
    (len : length simple ≡ 32) (fits : dev_size < two64) (big : 1048576 < dev_size)
    (named : hyphenate_uuid simple ≡ ok uuid)
    (unlabelled : same (read 0 8 s) (bytes "LABELONE") ≡ false) where
  abbrev codec : Crates
  codec = little_endian c

  -- The device with the sector in it.
  abbrev labelled_store : Store
  labelled_store = write 512 (read 0 512 (sector c simple dev_size len fits big)) s

  at :
      (a n : ℕ)
      → a + n ≤ 512
      → read (512 + a) n labelled_store ≡ read a n (sector c simple dev_size len fits big)
  at a n h = read-write_within 512 512 a n (sector c simple dev_size len fits big) s h

  value :
      (a v : ℕ)
      → a + 8 ≤ 512
      → read_le (take 8 (read a 8 (sector c simple dev_size len fits big))) ≡ v
      → read_le (take 8 (read (512 + a) 8 labelled_store)) ≡ v
  value a v h e = ap (λ b. read_le (take 8 b)) (at a 8 h) ∙ e

  data_areas :
      iter_pv_area codec (read 584 1464 labelled_store)
      ≡ ok (record { offset = 1048576; size = 0 } ∷ [])
  data_areas =
      iter_pv_area-read codec 584 1464 labelled_store
      ∙ collect_areas-more codec 1464 584 1464 1048576 0 [] labelled_store (omega arith)
          (value 72 1048576 (omega arith) (Fresh.sector-da_offset c simple dev_size len fits big))
          (value 80 0 (omega arith) (Fresh.sector-da_size c simple dev_size len fits big)) refl
          (collect_areas-end codec 1463 600 1448 labelled_store (omega arith)
            (value 88 0 (omega arith) (Fresh.sector-da_end c simple dev_size len fits big)))

  metadata_areas :
      iter_pv_area codec (read 616 1432 labelled_store)
      ≡ ok (
          record { offset = 4096; size = 1048576 - 4096 }
          ∷ record { offset = dev_size - 1048576; size = 1048576 }
          ∷ [])
  metadata_areas =
      iter_pv_area-read codec 616 1432 labelled_store
      ∙ collect_areas-more codec 1432 616 1432 4096 (1048576 - 4096) _ labelled_store (omega arith)
          (value 104 4096 (omega arith) (Fresh.sector-mda0_offset c simple dev_size len fits big))
          (value 112 (1048576 - 4096) (omega arith)
            (Fresh.sector-mda0_size c simple dev_size len fits big))
          refl
          (collect_areas-more codec 1431 632 1416 (dev_size - 1048576) 1048576 [] labelled_store
            (omega arith)
            (value 120 (dev_size - 1048576) (omega arith)
              (Fresh.sector-mda1_offset c simple dev_size len fits big))
            (value 128 1048576 (omega arith)
              (Fresh.sector-mda1_size c simple dev_size len fits big))
            (ground arith)
            (collect_areas-end codec 1430 648 1400 labelled_store (omega arith)
              (value 136 0 (omega arith) (Fresh.sector-mda_end c simple dev_size len fits big))))

  bootloader_areas : iter_pv_area codec (read 672 1376 labelled_store) ≡ ok []
  bootloader_areas =
      iter_pv_area-read codec 672 1376 labelled_store
      ∙ collect_areas-end codec 1376 672 1376 labelled_store (omega arith)
          (value 160 0 (omega arith) (Fresh.sector-ba_end c simple dev_size len fits big))

  found_extension : extension codec 1 (read 664 1384 labelled_store) ≡ ok (0, [])
  unfolding extension
  found_extension =
      let flags : read_le (take 4 (read 668 4 labelled_store)) ≡ 0 =
        ap (λ b. read_le (take 4 b)) (at 156 4 (omega arith))
        ∙ Fresh.sector-ext_flags c simple dev_size len fits big in
      rw
        (
          slice_of-read 664 1384 4 8 labelled_store (omega arith) (omega arith),
          slice_from-read 664 1384 8 1376 labelled_store refl,
          bootloader_areas,
          flags,
        )
        refl

  found_header :
      header_from_buf codec (read 544 1504 labelled_store) path
      ≡ ok (fresh_header uuid dev_size path)
  unfolding header_from_buf
  found_header =
      let version : read_le (take 4 (read 664 4 labelled_store)) ≡ 1 =
        ap (λ b. read_le (take 4 b)) (at 152 4 (omega arith))
        ∙ Fresh.sector-ext_version c simple dev_size len fits big in
      let id : read 544 32 labelled_store ≡ simple =
        at 32 32 (omega arith) ∙ Fresh.sector-uuid c simple dev_size len fits big in
      let size =
        value 64 dev_size (omega arith) (Fresh.sector-size c simple dev_size len fits big) in
      rw
        (
          slice_from-read 544 1504 40 1464 labelled_store refl,
          data_areas,
          slice_from-read 584 1464 32 1432 labelled_store refl,
          metadata_areas,
          slice_from-read 616 1432 48 1384 labelled_store refl,
          slice_of-read 664 1384 0 4 labelled_store (omega arith) (omega arith),
          version,
          found_extension,
          slice_of-read 544 1504 0 32 labelled_store (omega arith) (omega arith),
          id,
          named,
          slice_of-read 544 1504 32 40 labelled_store (omega arith) (omega arith),
          size,
        )
        refl

  found_label :
      (h : LabelHeader) × (label_from_buf codec (read 0 2048 labelled_store) ≡ ok h)
      × (h.offset ≡ 544)
  unfolding scan label_of
  found_label =
      let (h, e, off) = Fresh.label_of-sector c simple dev_size len fits big in
      let first : read 0 512 labelled_store ≡ read 0 512 s =
        read-write_outside 0 512 512 (read 0 512 (sector c simple dev_size len fits big)) s
          (inl (omega arith)) in
      let no_label : same (take 8 (read 0 512 s)) (bytes "LABELONE") ≡ false =
        rw (take-read 0 8 512 s (omega arith)) unlabelled in
      let second : read 512 512 labelled_store
          ≡ read 0 512 (sector c simple dev_size len fits big) =
        at 0 512 (omega arith) in
      let magic : same (take 8 (read 0 512 (sector c simple dev_size len fits big)))
            (bytes "LABELONE")
          ≡ true =
        rw (Fresh.sector-magic c simple dev_size len fits big) (same_refl (bytes "LABELONE")) in
      (
        h,
        rw
            (
              slice_of-read 0 2048 0 512 labelled_store (omega arith) (omega arith),
              first,
              no_label,
              slice_of-read 0 2048 512 1024 labelled_store (omega arith) (omega arith),
              second,
              magic,
            )
            e,
        off,
      )

  -- What is found on a device that agrees with it in the first four sectors.
  pub find_on-labelled :
      (d : Disk)
      → 2048 ≤ d.size
      → read 0 2048 d.store ≡ read 0 2048 labelled_store
      → find_on codec d path ≡ ok (fresh_header uuid dev_size path)
  unfolding find_on
  find_on-labelled d long e =
      let (h, label, off) = found_label in
      rw
        (
          read_into-zeros d 0 2048 long,
          e,
          label,
          off,
          slice_from-read 0 2048 544 1504 labelled_store refl,
        )
        found_header
