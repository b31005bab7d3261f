-- ===== src/Vg/Acts.antt =====
-- The operations of src/vg.rs with the group and the devices as a failing call leaves them: `&mut self`
-- keeps what was changed before the failure. The functions are those of Vg/Commit, Physical and
-- Logical, statement by statement.
pub mod Agree
pub mod Kept
pub mod Made
pub mod Lost
use melvin.Prelude.{
  ℕ, ◌==◌, true, false, if◌then◌else◌, List, [], ◌∷◌, ◌++◌, Option, none, some, Bytes, bytes,
  from_utf8_lossy, Result, ok, err, panicked, ok_or, expect, no_data_area, pv_in_vg, pv_in_use,
  pv_not_removed, lv_exists, no_contiguous_area, meta_lv_not_found, data_lv_not_found, lv_not_found,
  pvs_required, no_metadata_area,
}
use melvin.Prelude
use melvin.Prelude.Act.{Act, ◌>>=◌, lift, reads, done, modify}
use melvin.BTree
use melvin.BTree.{Ord, bytes_ord, contains_key, remove, get, values}
use melvin.Types.{Pv, Vg}
use melvin.Lv
use melvin.Disk.{Devices}
use melvin.Util.{make_uuid}
use melvin.Parser.TextMap.{TextMap}
use melvin.PvLabel.Header.{PvHeader, find_in_dev}
use melvin.PvLabel.Mda.Text.{read_metadata}
use melvin.PvLabel.Mda.Acts.{write_metadata_act}
use melvin.Vg.{free_areas, find_contig}
use melvin.Vg.System.{System}
use melvin.Vg.Text
use melvin.Vg.Commit.{disk_map, next_seqno}
use melvin.Vg.Physical.{unaffiliated, nth_area, volume_of, in_use, find_all, count_areas, new_vg}
use melvin.Vg.Logical.{
  new_lv, linear_segment, thinpool_segment, set_up, rename_device, doubled_hyphens,
}

module _ {D : Type 0} where
  unfoldable pub commit_pv_act : System D → TextMap → Option Bytes → Act Devices (Unit {0})
  commit_pv_act s map none = done
  commit_pv_act s map (some path) = do
    pvheader ← reads (λ devices. expect (find_in_dev s.crates path devices))
    write_metadata_act s.crates pvheader.dev_path pvheader.metadata_areas map

  unfoldable pub commit_pvs_act : System D → TextMap → List (Pv D) → Act Devices (Unit {0})
  commit_pvs_act s map [] = done
  commit_pvs_act s map (pv ∷ pvs) = do
    path ← lift (s.path_of pv)
    _ ← commit_pv_act s map path
    commit_pvs_act s map pvs

  -- A call on the devices alone.
  abbrev pub on_devices : Act Devices (Unit {0}) → Act (Vg D × Devices) (Unit {0})
  on_devices act = λ (vg, devices). let (devices2, r) = act devices in ((vg, devices2), r)

  abbrev pub the_vg : Act (Vg D × Devices) (Vg D)
  the_vg = reads (λ (vg, devices). ok vg)

  abbrev pub set_vg : Vg D → Act (Vg D × Devices) (Unit {0})
  set_vg vg = modify (λ (_, devices). (vg, devices))

module _ {D : Type 0} ⦃o : Ord D⦄ where
  unfoldable pub commit_act : System D → Act (Vg D × Devices) (Unit {0})
  commit_act s = do
    vg ← the_vg
    _ ← set_vg (next_seqno vg)
    map ← lift (Text.to_textmap s.to_u64 (next_seqno vg))
    on_devices (commit_pvs_act s (disk_map s vg.name map) (values vg.pvs))

  unfoldable pub pv_add_act : System D → Bytes → Act (Vg D × Devices) (Unit {0})
  pv_add_act s path = do
    pvh ← reads (λ (_, devices). find_in_dev s.crates path devices)
    dev ← lift (s.from_str (from_utf8_lossy path))
    _ ← reads (λ (_, devices).
        unaffiliated (read_metadata s.crates pvh.dev_path pvh.metadata_areas devices))
    da ← lift (ok_or (nth_area 0 pvh.data_areas) no_data_area)
    vg ← the_vg
    if vg.extent_size == 0
        then lift panicked
        else if contains_key dev vg.pvs
        then lift (err pv_in_vg)
        else (do
          _ ←
              set_vg
                (record vg { pvs = BTree.insert dev (volume_of pvh dev da vg.extent_size) vg.pvs })
          commit_act s)

  unfoldable pub pv_remove_act : System D → PvHeader → Act (Vg D × Devices) (Unit {0})
  pv_remove_act s pvh = do
    dev ← lift (s.from_str (from_utf8_lossy pvh.dev_path))
    vg ← the_vg
    if in_use dev (values vg.lvs)
        then lift (err pv_in_use)
        else if contains_key dev vg.pvs
        then (do _ ← set_vg (record vg { pvs = remove dev vg.pvs }); commit_act s)
        else lift (err pv_not_removed)

  unfoldable pub lv_create_linear_act : System D → Bytes → ℕ → Act (Vg D × Devices) (Unit {0})
  lv_create_linear_act s name extent_size = do
    vg ← the_vg
    if contains_key name vg.lvs then lift (err lv_exists) else (do
      free ← lift (free_areas vg)
      (dev, area_start, len) ← lift (ok_or (find_contig extent_size free none) no_contiguous_area)
      id ← lift (make_uuid s.simple)
      _ ← lift (
          set_up s (doubled_hyphens vg.name ++ (bytes "-" ++ doubled_hyphens name)) dev area_start
            len)
      let lv = new_lv s name id (linear_segment dev area_start extent_size)
      _ ← set_vg (record vg { lvs = BTree.insert name lv vg.lvs })
      commit_act s)

  -- The metadata volume has its new name once it was renamed, whatever fails behind that.
  unfoldable pub lv_create_thinpool_act :
      System D → Bytes → Bytes → Bytes → Act (Vg D × Devices) (Unit {0})
  lv_create_thinpool_act s name thin_meta thin_data = do
    _ ← lift s.dm_new
    vg ← the_vg
    meta_lv ← lift (ok_or (get thin_meta vg.lvs) meta_lv_not_found)
    let meta_name = name ++ bytes "_tmeta"
    _ ← lift (rename_device s name meta_name)
    let lvs = BTree.insert thin_meta (record meta_lv { name = meta_name }) vg.lvs
    _ ← set_vg (record vg { lvs = lvs })
    _ ← lift (ok_or (get thin_data lvs) data_lv_not_found)
    _ ← lift (rename_device s name (name ++ bytes "_tdata"))
    id ← lift (make_uuid s.simple)
    _ ← lift s.dm_new
    dm_name ← lift (s.dm_name name)
    _ ← lift (s.device_suspend dm_name false)
    let lv = new_lv s name id (thinpool_segment (Lv.used_extents meta_lv) thin_meta thin_data)
    _ ← set_vg (record vg { lvs = BTree.insert name lv lvs })
    commit_act s

  -- The volume is gone from the group, whatever fails behind that.
  unfoldable pub lv_remove_act : System D → Bytes → Act (Vg D × Devices) (Unit {0})
  lv_remove_act s name = do
    vg ← the_vg
    lv ← lift (ok_or (get name vg.lvs) lv_not_found)
    _ ← set_vg (record vg { lvs = remove name vg.lvs })
    _ ← lift s.dm_new
    dm_name ← lift (s.dm_name lv.name)
    _ ← lift (s.device_suspend dm_name true)
    _ ← lift (s.device_remove dm_name)
    commit_act s

  unfoldable pub add_all_act : System D → List Bytes → Act (Vg D × Devices) (Unit {0})
  add_all_act s [] = done
  add_all_act s (path ∷ paths) = do _ ← pv_add_act s path; add_all_act s paths

  -- The devices stay as the volumes that were added left them; the group is dropped.
  abbrev pub made_group : (Vg D × Devices) × Result (Unit {0}) → Devices × Result (Vg D)
  made_group ((vg, devices), r) = (devices, Prelude.◌>>=◌ r (λ _. ok vg))

  unfoldable pub create_act : System D → Bytes → List Bytes → Act Devices (Vg D)
  create_act s name [] = lift (err pvs_required)
  create_act s name (path ∷ paths) = do
    pvhs ← reads (find_all s (path ∷ paths))
    if count_areas pvhs == 0 then lift (err no_metadata_area) else (do
      id ← lift (make_uuid s.simple)
      λ devices. made_group (add_all_act s (path ∷ paths) (new_vg name id, devices)))
