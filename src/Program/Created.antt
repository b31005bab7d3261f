-- ===== src/Program/Created.antt =====
-- What the program of src/main.rs prints on a host with one labelled device, on which `create` made a
-- group.
use melvin.Prelude.{
  ◌>>=◌, ℕ, ◌+◌, ◌-◌, ◌≤◌, ◌<◌, ◌≡◌, refl, true, false, List, [], ◌∷◌, ◌++◌, Option, some, Bytes,
  bytes, same, before, length, from_utf8_lossy, two64, arith, ok, Result,
}
use melvin.Crates.{Crates, IsLittleEndian}
use melvin.BTree.{Ord, bytes_ord}
use melvin.Util.{hyphenate_uuid}
use melvin.Disk.{Disk, Devices, open_file, read}
use melvin.Parser.TextMap.{Entry, TextMap, empty, bind, insert}
use melvin.Parser.Printer.{textmap_to_buf}
use melvin.Parser.Printable.{IsPrintable}
use melvin.PvLabel.Header.{PvHeader, fresh_header, find_in_dev, is_block, labelled, pvheader_scan}
use melvin.PvLabel.Mda.Text.{read_metadata}
use melvin.PvLabel.RoundTrip.{initialized}
use melvin.Vg.System.{System}
use melvin.Vg.Commit.{frame, disk_map, next_seqno}
use melvin.Vg.Physical.{create, volume_of}
use melvin.Vg.Create.{group_of_one, data_area, create_found}
use melvin.Vg.Text
use melvin.Vg.RoundTrip.Fresh.{from_textmap_fresh}
use melvin.Program.{
  pvheader, hdr, name_map, first_textmap, get_first_vg_meta, print_pvheaders, main,
}

-- No path of the directory but one is a block device, and the mode of each is known.
module _ (stat : Bytes → Option ℕ) where
  abbrev pub AreOther : List Bytes → Type 0
  AreOther [] = Unit
  AreOther (p ∷ ps) = ((mode : ℕ) × (stat p ≡ some mode) × (is_block mode ≡ false)) × AreOther ps

  module _ (c : Crates) (devices : Devices) where
    labelled-AreOther : (ps : List Bytes) → AreOther ps → labelled c stat devices ps ≡ ok []
    unfolding labelled
    labelled-AreOther [] h = refl
    labelled-AreOther (p ∷ ps) ((mode, at, other), h) = rw (at, other, labelled-AreOther ps h) refl

    labelled_one :
        (ps qs : List Bytes) (path : Bytes) (mode : ℕ) (pvh : PvHeader)
        → AreOther ps
        → AreOther qs
        → stat path ≡ some mode
        → is_block mode ≡ true
        → find_in_dev c path devices ≡ ok pvh
        → labelled c stat devices (ps ++ path ∷ qs) ≡ ok (path ∷ [])
    unfolding labelled
    labelled_one [] qs path mode pvh h g at block header =
        rw (at, block, header, labelled-AreOther qs g) refl
    labelled_one (p ∷ ps) qs path mode pvh ((m, at_p, other), h) g at block header =
        rw (at_p, other, labelled_one ps qs path mode pvh h g at block header) refl

-- A map without sections.
abbrev AreFlat : TextMap → Type 0
AreFlat empty = Unit
AreFlat (bind k (Entry.text_map t) m) = ⊥
AreFlat (bind k _ m) = AreFlat m

first_textmap-insert :
    (name : Bytes) (map m : TextMap)
    → AreFlat m
    → first_textmap (insert name (Entry.text_map map) m) ≡ some (name, map)
unfolding first_textmap insert
first_textmap-insert name map empty h = refl
first_textmap-insert name map (bind k (Entry.text_map t) m) h = absurd h
first_textmap-insert name map (bind k (Entry.number x) m) h =
    ground (arith, first_textmap-insert name map m h)
first_textmap-insert name map (bind k (Entry.string x) m) h =
    ground (arith, first_textmap-insert name map m h)
first_textmap-insert name map (bind k (Entry.list x) m) h =
    ground (arith, first_textmap-insert name map m h)

first_textmap-disk_map :
    {D : Type 0} (s : System D) (name : Bytes) (map : TextMap)
    → first_textmap (disk_map s name map) ≡ some (name, map)
unfolding insert before same
first_textmap-disk_map s name map = first_textmap-insert name map (frame s) tt

module _ (c : Crates) (devices : Devices) (read_dir : Bytes → Result (List Bytes))
    (stat : Bytes → Option ℕ) where
  -- One device is found, and its metadata has a section.
  main_one :
      (path name : Bytes) (pvh : PvHeader) (metadata map : TextMap)
      → pvheader_scan c read_dir stat devices (bytes "/dev" ∷ []) ≡ ok (path ∷ [])
      → find_in_dev c path devices ≡ ok pvh
      → read_metadata c pvh.dev_path pvh.metadata_areas devices ≡ ok metadata
      → first_textmap metadata ≡ some (name, map)
      → main c devices read_dir stat ≡ (pvheader path ∷ hdr pvh ∷ name_map name map ∷ [], ok tt)
  unfolding main print_pvheaders get_first_vg_meta
  main_one path name pvh metadata map scanned header found first =
      rw (scanned, header, found) (rw (◌>>=◌, first) refl)

module _ {D : Type 0} ⦃o : Ord D⦄ where
  -- If byteorder is little-endian, the device at `path` was just initialized (with a hyphenated `uuid`,
  -- on at least 2101248 and fewer than 2^64 bytes with no label in the first sector), `path` names
  -- `dev`, `dev` is found at `path`, the group's map is written and its frame can be printed and fits
  -- the first metadata area, and `path` is the only block device in /dev, where every path has a mode,
  -- and if `from_u64` undoes `to_u64` and the number of `dev` fits `u64`, then `create` makes the group
  -- of that one volume, the program prints the path, the header and the group's name and map, and ends
  -- well, and `from_textmap` reads that map as the group.
  pub main-create :
      (s : System D) (name path simple uuid id : Bytes) (dev : D) (d : Disk) (devices : Devices)
      (map : TextMap) (text : Bytes) (read_dir : Bytes → Result (List Bytes))
      (stat : Bytes → Option ℕ) (ps qs : List Bytes) (mode : ℕ) (set_up : List (Bytes × D))
      → IsLittleEndian s.crates
      → open_file path devices ≡ ok (initialized s.crates simple d)
      → length simple ≡ 32
      → hyphenate_uuid simple ≡ ok uuid
      → hyphenate_uuid s.simple ≡ ok id
      → 2101248 ≤ d.size
      → d.size < two64
      → same (read 0 8 d.store) (bytes "LABELONE") ≡ false
      → s.from_str (from_utf8_lossy path) ≡ ok dev
      → s.path_of (volume_of (fresh_header uuid d.size path) dev data_area 8192) ≡ ok (some path)
      → Text.to_textmap s.to_u64 (next_seqno (group_of_one name id uuid d.size path dev)) ≡ ok map
      → IsPrintable (disk_map s name map)
      → textmap_to_buf (disk_map s name map) ≡ ok text
      → 512 + length (text ++ 0 ∷ []) ≤ 1048576 - 4096
      → read_dir (bytes "/dev") ≡ ok (ps ++ path ∷ qs)
      → AreOther stat ps
      → AreOther stat qs
      → stat path ≡ some mode
      → is_block mode ≡ true
      → ((e : D) → s.from_u64 (s.to_u64 e) ≡ e)
      → s.to_u64 dev < two64
      → (devices2 : Devices) × (create s name (path ∷ []) devices
          ≡ ok (next_seqno (group_of_one name id uuid d.size path dev), devices2))
        × (main s.crates devices2 read_dir stat
            ≡ (pvheader path ∷ hdr (fresh_header uuid d.size path) ∷ name_map name map ∷ [], ok tt))
        × (Text.from_textmap s.from_u64 (ok set_up) name map
            ≡ ok (next_seqno (group_of_one name id uuid d.size path dev)))
  unfolding pvheader_scan
  main-create s name path simple uuid id dev d devices map text read_dir stat ps qs mode set_up le
        opened len named vg_named big fits unlabelled from_path to_path mapped printable printed
        short listed before_it behind_it at block from-to small =
      let pvh = fresh_header uuid d.size path in
      let (devices2, done, found, header) =
        create_found s name path simple uuid id dev d devices map text le opened len named vg_named
          big fits unlabelled from_path to_path mapped printable printed short in
      let one =
        labelled_one stat s.crates devices2 ps qs path mode pvh before_it behind_it at block
          header in
      (
        devices2,
        done,
        main_one s.crates devices2 read_dir stat path name pvh (disk_map s name map) map
            (rw (listed, one) refl) header found (first_textmap-disk_map s name map),
        from_textmap_fresh s.to_u64 name id uuid path d.size dev s.from_u64 set_up map from-to fits
            small mapped,
      )
