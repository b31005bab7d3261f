-- ===== src/PvLabel/Mda/Acts.antt =====
-- `write_metadata` of src/pvlabel.rs with the device as a failing call leaves it: each function is the
-- one of PvLabel/Mda/Text, write by write.
use melvin.Prelude.{
  ℕ, ◌+◌, ◌-◌, ◌%◌, ◌==◌, ◌&&◌, ◌≡◌, refl, ap, ◌∙◌, Bool, true, false, if◌then◌else◌, List, [], ◌∷◌,
  ◌++◌, Bytes, length, drop, take, Result, ok, err, panicked, out_of_fuel, bind_assoc,
}
use Prim.Native.Nat.{min}
use melvin.Prelude
use melvin.Prelude.Act.{
  Act, ◌>>=◌, lift, reads, done, settled, settled-if, settled-bind, settled-reads,
}
use melvin.Crates.{Crates}
use melvin.BTree.{bytes_ord}
use melvin.BTree
use melvin.Util.{crc32_calc}
use melvin.Disk.Acts.{write_all_act, settled-write_all_act}
use melvin.Disk.{Disk, Devices, write_all, open_file}
use melvin.PvLabel.{mda_header_size, sector_size}
use melvin.PvLabel.Areas.{PvArea, RawLocn}
use melvin.PvLabel.Mda.{mda_header, read_mda_header, write_mda_header}
use melvin.PvLabel.Mda.Text.{
  add_u64, or_template, start_off, write_text, write_area, write_areas, write_metadata,
}
use melvin.Parser.TextMap.{TextMap}
use melvin.Parser.Printer.{textmap_to_buf}

-- The two writes of a text.
unfoldable pub write_text_act : PvArea → ℕ → Bytes → Act Disk (Unit {0})
write_text_act pvarea start text = do
  let tail_space = pvarea.size - start
  let written = min tail_space (length text)
  _ ←
      (if tail_space == 0
        then done
        else write_all_act (add_u64 pvarea.offset start) (take written text))
  if written == length text
      then done
      else write_all_act (add_u64 pvarea.offset mda_header_size) (drop written text)

module _ (c : Crates) where
  unfoldable pub write_mda_header_act : PvArea → RawLocn → Act Disk (Unit {0})
  write_mda_header_act area rl = write_all_act area.offset (mda_header c area rl)

  -- One area: the text, then the header that names it.
  unfoldable pub write_area_act : PvArea → Bytes → Act Disk (Unit {0})
  write_area_act pvarea text = do
    o ← reads (read_mda_header c pvarea)
    let rl = or_template o
    let start = start_off pvarea rl
    if rl.ignored
        then done
        else if (start % sector_size == 0) && ((pvarea.size - start) % sector_size == 0)
        then (do
          _ ← write_text_act pvarea start text
          write_mda_header_act pvarea (record {
            offset = start;
            size = length text;
            checksum = crc32_calc c text;
            ignored = rl.ignored;
          }))
        else lift panicked

  unfoldable pub write_areas_act : List PvArea → Bytes → Act Disk (Unit {0})
  write_areas_act [] text = done
  write_areas_act (pvarea ∷ areas) text = do
    _ ← write_area_act pvarea text
    write_areas_act areas text

-- A call on the device at `path`, which has to be opened first.
abbrev pub on_device :
    Devices → Bytes → Result Disk → Act Disk (Unit {0}) → Devices × Result (Unit {0})
on_device devices path (ok f) act = let (f1, r) = act f in (BTree.insert path f1 devices, r)
on_device devices path (err e) act = (devices, err e)
on_device devices path panicked act = (devices, panicked)
on_device devices path out_of_fuel act = (devices, out_of_fuel)

module _ (c : Crates) where
  unfoldable pub write_metadata_act : Bytes → List PvArea → TextMap → Act Devices (Unit {0})
  unfolding write_areas_act
  write_metadata_act dev_path areas map = λ devices.
      on_device devices dev_path (open_file dev_path devices)
        (do buf ← lift (textmap_to_buf map); write_areas_act c areas (buf ++ 0 ∷ []))

-- What the calls leave behind when they succeed is what the functions without the state return.
settled-write_text :
    (pvarea : PvArea) (start : ℕ) (text : Bytes) (f : Disk)
    → settled (write_text_act pvarea start text f) ≡ write_text pvarea start text f
unfolding write_text_act write_text
settled-write_text pvarea start text f =
    let tail_space = pvarea.size - start in
    let written = min tail_space (length text) in
    let p = add_u64 pvarea.offset start in
    let q = add_u64 pvarea.offset mda_header_size in
    let first = take written text in
    let second = drop written text in
    settled-bind (if tail_space == 0 then done else write_all_act p first)
      (if written == length text then done else write_all_act q second)
      (λ d. if tail_space == 0 then ok d else write_all d p first)
      (λ d. if written == length text then ok d else write_all d q second)
      (λ d.
        settled-if (tail_space == 0) done (write_all_act p first) d refl
          (settled-write_all_act p first d))
      (λ d.
        settled-if (written == length text) done (write_all_act q second) d refl
          (settled-write_all_act q second d))
      f

module _ (c : Crates) where
  pub settled-write_mda_header :
      (area : PvArea) (rl : RawLocn) (f : Disk)
      → settled (write_mda_header_act c area rl f) ≡ write_mda_header c area f rl
  unfolding write_mda_header_act write_mda_header
  settled-write_mda_header area rl = settled-write_all_act area.offset (mda_header c area rl)

  settled-write_area :
      (pvarea : PvArea) (text : Bytes) (f : Disk)
      → settled (write_area_act c pvarea text f) ≡ write_area c pvarea text f
  unfolding write_area_act write_area
  settled-write_area pvarea text f = settled-reads (read_mda_header c pvarea) _ f _ (λ o.
      let rl = or_template o in
      let start = start_off pvarea rl in
      let locn : RawLocn = record {
        offset = start;
        size = length text;
        checksum = crc32_calc c text;
        ignored = rl.ignored;
      } in
      settled-if rl.ignored _ _ f refl (
        settled-if ((start % sector_size == 0) && ((pvarea.size - start) % sector_size == 0)) _ _ f
          (settled-bind (write_text_act pvarea start text) (write_mda_header_act c pvarea locn)
            (write_text pvarea start text) (λ d. write_mda_header c pvarea d locn)
            (settled-write_text pvarea start text) (settled-write_mda_header pvarea locn) f)
          refl))

  settled-write_areas :
      (areas : List PvArea) (text : Bytes) (f : Disk)
      → settled (write_areas_act c areas text f) ≡ write_areas c areas text f
  unfolding write_areas_act write_areas
  settled-write_areas [] text f = refl
  settled-write_areas (a ∷ areas) text f =
      settled-bind (write_area_act c a text) (write_areas_act c areas text) (write_area c a text)
        (write_areas c areas text) (settled-write_area a text) (settled-write_areas areas text) f

pub settled-on_device :
    (devices : Devices) (path : Bytes) (r : Result Disk) (act : Act Disk (Unit {0}))
    (g : Disk → Result Devices)
    → ((f : Disk) → Prelude.◌>>=◌ (settled (act f)) (λ f1. ok (BTree.insert path f1 devices)) ≡ g f)
    → settled (on_device devices path r act) ≡ Prelude.◌>>=◌ r g
settled-on_device devices path (ok f) act g h = put (act f) ∙ h f
  where
    put :
        (o : Disk × Result (Unit {0}))
        → settled (BTree.insert path o.0 devices, o.1)
          ≡ Prelude.◌>>=◌ (settled o) (λ f1. ok (BTree.insert path f1 devices))
    put (d, ok _) = refl
    put (d, err e) = refl
    put (d, panicked) = refl
    put (d, out_of_fuel) = refl
settled-on_device devices path (err e) act g h = refl
settled-on_device devices path panicked act g h = refl
settled-on_device devices path out_of_fuel act g h = refl

pub settled-write_metadata :
    (c : Crates) (path : Bytes) (areas : List PvArea) (map : TextMap) (devices : Devices)
    → settled (write_metadata_act c path areas map devices)
      ≡ write_metadata c path areas map devices
unfolding write_metadata_act write_metadata
settled-write_metadata c path areas map devices =
    settled-on_device devices path (open_file path devices) _ _ (λ f.
      ap (λ r. Prelude.◌>>=◌ r (λ f1. ok (BTree.insert path f1 devices)))
        (settled-reads (λ _. textmap_to_buf map) _ f _
          (λ buf. settled-write_areas c areas (buf ++ 0 ∷ []) f))
      ∙ bind_assoc (textmap_to_buf map) (λ buf. write_areas c areas (buf ++ 0 ∷ []) f)
          (λ f1. ok (BTree.insert path f1 devices)))
