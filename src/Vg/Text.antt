-- ===== src/Vg/Text.antt =====
-- `from_textmap` and `to_textmap` of src/vg.rs. `from_u64` and `to_u64` are the conversions of
-- `Device`; `dm_devices` is what `DM::new` and `list_devices` of the devicemapper crate return: the
-- names and numbers of the devices that are set up.
use melvin.Prelude.{
  ℕ, ◌+◌, pos, List, [], ◌∷◌, Option, none, some, Bytes, bytes, as_i64, as_u64, from_utf8_lossy,
  Result, ok, err, ◌>>=◌, ok_or, unwrap, vg_parsing, expected_pv, expected_lv,
}
use melvin.BTree
use melvin.BTree.{Ord, BTreeMap, bytes_ord, collect, values}
use melvin.Types.{Pv, Lv, Vg}
use melvin.Parser.TextMap.{
  Entry, TextMap, empty, bind, insert, i64_from_textmap, string_from_textmap, list_from_textmap,
  textmap_from_textmap, strings_of, entries_of, status_from_textmap,
}
use melvin.Lv.Segments.{pv_name}
use melvin.Lv
use melvin.Pv

module _ {D : Type 0} where
  -- The closure over the entries of "physical_volumes".
  unfoldable pub load_pvs :
      (ℕ → D) → TextMap → BTreeMap Bytes (Pv D) → Result (BTreeMap Bytes (Pv D))
  load_pvs from_u64 empty ret_map = ok ret_map
  load_pvs from_u64 (bind key (Entry.text_map pv_dict) tm) ret_map = do
    pv ← Pv.from_textmap from_u64 pv_dict
    load_pvs from_u64 tm (BTree.insert key pv ret_map)
  load_pvs from_u64 (bind key _ tm) ret_map = err expected_pv

  unfoldable pub load_lvs :
      BTreeMap Bytes (Pv D) → TextMap → BTreeMap Bytes (Lv D) → Result (BTreeMap Bytes (Lv D))
  load_lvs str_to_pv empty ret_map = ok ret_map
  load_lvs str_to_pv (bind key (Entry.text_map lv_dict) tm) ret_map = do
    lv ← Lv.from_textmap key lv_dict str_to_pv
    load_lvs str_to_pv tm (BTree.insert key lv ret_map)
  load_lvs str_to_pv (bind key _ tm) ret_map = err expected_lv

  -- "logical_volumes" may be absent.
  unfoldable pub load_lv_section :
      BTreeMap Bytes (Pv D) → Option TextMap → Result (BTreeMap Bytes (Lv D))
  unfolding load_lvs
  load_lv_section str_to_pv none = ok []
  load_lv_section str_to_pv (some tm) = load_lvs str_to_pv tm []

  abbrev pub by_device : List (Pv D) → List (D × Pv D)
  by_device [] = []
  by_device (pv ∷ pvs) = (pv.device, pv) ∷ by_device pvs

  -- The loop over the devices that are set up: those named like a volume are its device.
  unfoldable pub set_devices : List (Bytes × D) → BTreeMap Bytes (Lv D) → BTreeMap Bytes (Lv D)
  set_devices [] lvs = lvs
  set_devices ((lvname, dev) ∷ rest) lvs =
      set_devices rest (elim (BTree.get (from_utf8_lossy lvname) lvs) [
        | none ↦ lvs
        | some lv ↦ BTree.insert (from_utf8_lossy lvname) (record lv { device = some dev }) lvs
      ])

module _ {D : Type 0} ⦃o : Ord D⦄ where
  unfoldable pub from_textmap :
      (ℕ → D) → Result (List (Bytes × D)) → Bytes → TextMap → Result (Vg D)
  unfolding load_pvs load_lv_section set_devices
  from_textmap from_u64 dm_devices name map = do
    id ← ok_or (string_from_textmap map (bytes "id")) vg_parsing
    seqno ← ok_or (i64_from_textmap map (bytes "seqno")) vg_parsing
    format ← ok_or (string_from_textmap map (bytes "format")) vg_parsing
    extent_size ← ok_or (i64_from_textmap map (bytes "extent_size")) vg_parsing
    max_lv ← ok_or (i64_from_textmap map (bytes "max_lv")) vg_parsing
    max_pv ← ok_or (i64_from_textmap map (bytes "max_pv")) vg_parsing
    metadata_copies ← ok_or (i64_from_textmap map (bytes "metadata_copies")) vg_parsing
    status ← status_from_textmap map
    flags ← ok_or (list_from_textmap map (bytes "flags")) vg_parsing
    pv_section ← ok_or (textmap_from_textmap map (bytes "physical_volumes")) vg_parsing
    str_to_pv ← load_pvs from_u64 pv_section []
    lvs ← load_lv_section str_to_pv (textmap_from_textmap map (bytes "logical_volumes"))
    devices ← dm_devices
    ok (record {
      name = name;
      id = id;
      seqno = as_u64 seqno;
      format = format;
      status = status;
      flags = strings_of flags;
      extent_size = as_u64 extent_size;
      max_lv = as_u64 max_lv;
      max_pv = as_u64 max_pv;
      metadata_copies = as_u64 metadata_copies;
      pvs = collect (by_device (values str_to_pv)) [];
      lvs = set_devices devices lvs;
    })

  -- `values().enumerate().map(|(num, pv)| (pv.device, num))`
  unfoldable pub numbered : ℕ → List (Pv D) → List (D × ℕ)
  numbered num [] = []
  numbered num (pv ∷ pvs) = (pv.device, num) ∷ numbered (num + 1) pvs

  unfoldable pub dev_to_idx : Vg D → BTreeMap D ℕ
  unfolding numbered
  dev_to_idx vg = collect (numbered 0 (values vg.pvs)) []

  -- A volume under a device with no index is a panic.
  unfoldable pub store_pvs : (D → ℕ) → BTreeMap D ℕ → List (D × Pv D) → TextMap → Result TextMap
  store_pvs to_u64 idxs [] tm = ok tm
  store_pvs to_u64 idxs ((k, v) ∷ pvs) tm = do
    idx ← unwrap (BTree.get k idxs)
    store_pvs to_u64 idxs pvs (insert (pv_name idx) (Entry.text_map (Pv.to_textmap to_u64 v)) tm)

  unfoldable pub store_lvs : BTreeMap D ℕ → List (Bytes × Lv D) → TextMap → Result TextMap
  store_lvs idxs [] tm = ok tm
  store_lvs idxs ((k, v) ∷ lvs) tm = do
    t ← Lv.to_textmap v idxs
    store_lvs idxs lvs (insert k (Entry.text_map t) tm)

  -- The section is left out if there is no logical volume.
  unfoldable pub with_lvs : BTreeMap D ℕ → List (Bytes × Lv D) → TextMap → Result TextMap
  unfolding store_lvs
  with_lvs idxs [] map = ok map
  with_lvs idxs (lv ∷ lvs) map = do
    tm ← store_lvs idxs (lv ∷ lvs) empty
    ok (insert (bytes "logical_volumes") (Entry.text_map tm) map)

  -- The entries before the sections.
  unfoldable pub vg_header : Vg D → TextMap
  vg_header vg =
      let m1 = insert (bytes "id") (Entry.string vg.id) empty in
      let m2 = insert (bytes "seqno") (Entry.number (as_i64 vg.seqno)) m1 in
      let m3 = insert (bytes "format") (Entry.string vg.format) m2 in
      let m4 = insert (bytes "max_pv") (Entry.number (pos 0)) m3 in
      let m5 = insert (bytes "max_lv") (Entry.number (pos 0)) m4 in
      let m6 = insert (bytes "status") (Entry.list (entries_of vg.status)) m5 in
      let m7 = insert (bytes "flags") (Entry.list (entries_of vg.flags)) m6 in
      let m8 = insert (bytes "extent_size") (Entry.number (as_i64 vg.extent_size)) m7 in
      insert (bytes "metadata_copies") (Entry.number (as_i64 vg.metadata_copies)) m8

  unfoldable pub to_textmap : (D → ℕ) → Vg D → Result TextMap
  unfolding store_pvs with_lvs vg_header
  to_textmap to_u64 vg = do
    tm ← store_pvs to_u64 (dev_to_idx vg) vg.pvs empty
    with_lvs (dev_to_idx vg) vg.lvs
        (insert (bytes "physical_volumes") (Entry.text_map tm) (vg_header vg))
