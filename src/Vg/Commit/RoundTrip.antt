-- ===== src/Vg/Commit/RoundTrip.antt =====
-- `VG::commit` of src/vg.rs on every device of a group, and reading the metadata from each of them.
use melvin.Prelude.{
  ◌≡◌, refl, sym, ◌∙◌, false, List, [], ◌∷◌, ◌++◌, some, Bytes, same, ok, bind-inv,
}
use melvin.Crates.{IsLittleEndian}
use melvin.BTree.{Ord, bytes_ord, values}
use melvin.BTree
use melvin.BTree.Laws.{get-insert}
use melvin.Types.{Pv, Vg}
use melvin.Disk.{Disk, Devices, open_file}
use melvin.Parser.TextMap.{TextMap}
use melvin.Parser.Printer.{textmap_to_buf}
use melvin.Parser.Printable.{IsPrintable}
use melvin.PvLabel.Areas.{PvArea}
use melvin.PvLabel.Header.{PvHeader, find_in_dev}
use melvin.PvLabel.Mda.Text.{write_areas, write_metadata, read_metadata}
use melvin.PvLabel.Mda.Metadata.{AreReady, ArePairwiseApart}
use melvin.PvLabel.Mda.Devices.{metadata_round_trip}
use melvin.Vg.System.{System}
use melvin.Vg.Commit.{disk_map, commit_pv, commit_pvs, next_seqno, commit}
use melvin.Vg.Text

-- A device and its metadata areas.
pub record Target : Type 0 where
  pub path : Bytes
  pub area : PvArea
  pub areas : List PvArea

-- No path of the list is `path`.
abbrev pub IsNewPath : Bytes → List Target → Type 0
IsNewPath path [] = Unit
IsNewPath path (t ∷ targets) =
    (same t.path path ≡ false) × (same path t.path ≡ false) × IsNewPath path targets

pub open_file-insert_ne :
    (path other : Bytes) (d : Disk) (devices : Devices)
    → same path other ≡ false
    → open_file path (BTree.insert other d devices) ≡ open_file path devices
unfolding open_file
open_file-insert_ne path other d devices h = rw (get-insert path other d devices, h) refl

module _ {D : Type 0} (s : System D) where
  -- The header of the volume is found at the target's path and names its areas, and a text of `text` and one
  -- null can be written to each of them.
  pub record IsTarget (text : Bytes) (pv : Pv D) (t : Target) (devices : Devices) : Type 0 where
    pub named : s.path_of pv ≡ ok (some t.path)
    pub pvh : PvHeader
    pub header : find_in_dev s.crates t.path devices ≡ ok pvh
    pub at_path : pvh.dev_path ≡ t.path
    pub with_areas : pvh.metadata_areas ≡ t.area ∷ t.areas
    pub d : Disk
    pub opened : open_file t.path devices ≡ ok d
    pub ready : AreReady s.crates (text ++ 0 ∷ []) (t.area ∷ t.areas) d
    pub apart : ArePairwiseApart (t.area ∷ t.areas)

  -- Each volume has its target, at a path of its own.
  abbrev pub AreTargets : Bytes → List (Pv D) → List Target → Devices → Type 0
  AreTargets text [] [] devices = Unit
  AreTargets text [] (t ∷ targets) devices = ⊥
  AreTargets text (pv ∷ pvs) [] devices = ⊥
  AreTargets text (pv ∷ pvs) (t ∷ targets) devices =
      IsTarget text pv t devices × IsNewPath t.path targets × AreTargets text pvs targets devices

  -- The map is read from each target.
  abbrev pub AreWritten : TextMap → List Target → Devices → Type 0
  AreWritten map [] devices = Unit
  AreWritten map (t ∷ targets) devices =
      (read_metadata s.crates t.path (t.area ∷ t.areas) devices ≡ ok map)
      × AreWritten map targets devices

  pub IsTarget-elsewhere :
      (text : Bytes) (pv : Pv D) (t : Target) (devices devices2 : Devices)
      → open_file t.path devices2 ≡ open_file t.path devices
      → IsTarget text pv t devices
      → IsTarget text pv t devices2
  unfolding find_in_dev
  IsTarget-elsewhere text pv t devices devices2 same_disk h = record {
    named = h.named;
    pvh = h.pvh;
    header = rw same_disk h.header;
    at_path = h.at_path;
    with_areas = h.with_areas;
    d = h.d;
    opened = same_disk ∙ h.opened;
    ready = h.ready;
    apart = h.apart;
  }

  pub AreTargets-elsewhere :
      (text path : Bytes) (pvs : List (Pv D)) (targets : List Target) (devices devices2 : Devices)
      → ((other : Bytes)
          → same other path ≡ false
          → open_file other devices2 ≡ open_file other devices)
      → IsNewPath path targets
      → AreTargets text pvs targets devices
      → AreTargets text pvs targets devices2
  AreTargets-elsewhere text path [] [] devices devices2 same_disks new hs = tt
  AreTargets-elsewhere text path [] (t ∷ targets) devices devices2 same_disks new hs = absurd hs
  AreTargets-elsewhere text path (pv ∷ pvs) [] devices devices2 same_disks new hs = absurd hs
  AreTargets-elsewhere text path (pv ∷ pvs) (t ∷ targets) devices devices2 same_disks
        (other, _, news) (h, n, hs) =
      (
        IsTarget-elsewhere text pv t devices devices2 (same_disks t.path other) h,
        n,
        AreTargets-elsewhere text path pvs targets devices devices2 same_disks news hs,
      )

  -- What is written to one device is not seen on another.
  pub write_metadata-elsewhere :
      (path other : Bytes) (areas : List PvArea) (map : TextMap) (devices devices2 : Devices)
      → write_metadata s.crates path areas map devices ≡ ok devices2
      → same other path ≡ false
      → open_file other devices2 ≡ open_file other devices
  unfolding write_metadata
  write_metadata-elsewhere path other areas map devices devices2 h ne =
      let (f, _, h1) = bind-inv (open_file path devices) _ devices2 h in
      let (buf, _, h2) = bind-inv (textmap_to_buf map) _ devices2 h1 in
      let (f1, _, h3) = bind-inv (write_areas s.crates areas (buf ++ 0 ∷ []) f) _ devices2 h2 in
      let same_devices : BTree.insert path f1 devices ≡ devices2 = cc in
      rw (sym same_devices) (open_file-insert_ne other path f1 devices ne)

  module _ (map : TextMap) (text : Bytes) (le : IsLittleEndian s.crates)
      (printable : IsPrintable map) (printed : textmap_to_buf map ≡ ok text) where
    commit_pv-written :
        (pv : Pv D) (t : Target) (devices : Devices)
        → IsTarget text pv t devices
        → (devices2 : Devices) × (commit_pv s map (some t.path) devices ≡ ok devices2)
          × (read_metadata s.crates t.path (t.area ∷ t.areas) devices2 ≡ ok map)
          × ((other : Bytes)
              → same other t.path ≡ false
              → open_file other devices2 ≡ open_file other devices)
    unfolding commit_pv
    commit_pv-written pv t devices h =
        let (devices2, written, found, _) =
          metadata_round_trip s.crates t.path t.area t.areas map text devices h.d le printable
            printed h.opened h.ready h.apart in
        (
          devices2,
          rw (h.header, h.at_path, h.with_areas) written,
          found,
          λ other.
              write_metadata-elsewhere t.path other (t.area ∷ t.areas) map devices devices2 written,
        )

    commit_pvs-written :
        (pvs : List (Pv D)) (targets : List Target) (devices : Devices)
        → AreTargets text pvs targets devices
        → (devices2 : Devices) × (commit_pvs s map pvs devices ≡ ok devices2)
          × AreWritten map targets devices2
          × ((other : Bytes)
              → IsNewPath other targets
              → open_file other devices2 ≡ open_file other devices)
    unfolding commit_pvs read_metadata
    commit_pvs-written [] [] devices hs = (devices, refl, tt, λ other _. refl)
    commit_pvs-written [] (t ∷ targets) devices hs = absurd hs
    commit_pvs-written (pv ∷ pvs) [] devices hs = absurd hs
    commit_pvs-written (pv ∷ pvs) (t ∷ targets) devices (h, new, hs) =
        let (devices1, e1, found, elsewhere) = commit_pv-written pv t devices h in
        let (devices2, e2, written, kept) =
          commit_pvs-written pvs targets devices1
            (AreTargets-elsewhere text t.path pvs targets devices devices1 elsewhere new hs) in
        (
          devices2,
          rw (h.named, e1) e2,
          (rw (kept t.path new) found, written),
          λ other (_, ne, news). kept other news ∙ elsewhere other ne,
        )

-- If byteorder is little-endian, the group's map is written and can be printed with its frame, and each physical volume is found with
-- its header and metadata areas at a path of its own and has room for the text, then `commit` succeeds, makes the next generation of
-- the group, and from each device the frame with the group's map is read.
pub commit_round_trip :
    {D : Type 0} ⦃o : Ord D⦄ (s : System D) (vg : Vg D) (map : TextMap) (text : Bytes)
    (targets : List Target) (devices : Devices)
    → IsLittleEndian s.crates
    → Text.to_textmap s.to_u64 (next_seqno vg) ≡ ok map
    → IsPrintable (disk_map s vg.name map)
    → textmap_to_buf (disk_map s vg.name map) ≡ ok text
    → AreTargets s text (values vg.pvs) targets devices
    → (devices2 : Devices) × (commit s vg devices ≡ ok (next_seqno vg, devices2))
      × AreWritten s (disk_map s vg.name map) targets devices2
unfolding commit
commit_round_trip s vg map text targets devices le e printable printed h =
    let (devices2, done, written, _) =
      commit_pvs-written s (disk_map s vg.name map) text le printable printed (values vg.pvs)
        targets devices h in
    (devices2, rw (e, done) refl, written)
