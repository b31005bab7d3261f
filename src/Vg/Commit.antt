-- ===== src/Vg/Commit.antt =====
-- `VG::commit` of src/vg.rs.
pub mod RoundTrip
pub mod Headers
pub mod Again
use melvin.Prelude.{
  ◌+◌, ◌%◌, pos, List, [], ◌∷◌, Option, none, some, Bytes, bytes, Result, ok, ◌>>=◌, two64, expect,
}
use melvin.BTree.{Ord, values}
use melvin.Types.{Pv, Vg}
use melvin.Parser.TextMap.{Entry, TextMap, empty, insert}
use melvin.Disk.{Devices}
use melvin.PvLabel.Header.{find_in_dev}
use melvin.PvLabel.Mda.Text.{write_metadata}
use melvin.Vg.System.{System}
use melvin.Vg.Text

module _ {D : Type 0} where
  -- The entries around the group's map.
  abbrev pub frame : System D → TextMap
  frame s =
      let m1 =
        insert (bytes "contents") (Entry.string (bytes "Melvin Text Format Volume Group")) empty in
      let m2 = insert (bytes "version") (Entry.number (pos 1)) m1 in
      let m3 = insert (bytes "description") (Entry.string []) m2 in
      let m4 = insert (bytes "creation_host") (Entry.string s.nodename) m3 in
      insert (bytes "creation_time") (Entry.number s.now) m4

  -- What goes to disk: the group's map under its name.
  abbrev pub disk_map : System D → Bytes → TextMap → TextMap
  disk_map s name map = insert name (Entry.text_map map) (frame s)

  -- A volume whose path is not found is left out; no header at the path is a panic.
  unfoldable pub commit_pv : System D → TextMap → Option Bytes → Devices → Result Devices
  commit_pv s map none devices = ok devices
  commit_pv s map (some path) devices = do
    pvheader ← expect (find_in_dev s.crates path devices)
    write_metadata s.crates pvheader.dev_path pvheader.metadata_areas map devices

  unfoldable pub commit_pvs : System D → TextMap → List (Pv D) → Devices → Result Devices
  commit_pvs s map [] devices = ok devices
  commit_pvs s map (pv ∷ pvs) devices = do
    path ← s.path_of pv
    devices1 ← commit_pv s map path devices
    commit_pvs s map pvs devices1

  -- The generation that a commit makes.
  abbrev pub next_seqno : Vg D → Vg D
  next_seqno vg = record vg { seqno = (vg.seqno + 1) % two64 }

module _ {D : Type 0} ⦃o : Ord D⦄ where
  unfoldable pub commit : System D → Vg D → Devices → Result (Vg D × Devices)
  commit s vg devices = do
    map ← Text.to_textmap s.to_u64 (next_seqno vg)
    devices1 ← commit_pvs s (disk_map s vg.name map) (values vg.pvs) devices
    ok (next_seqno vg, devices1)
