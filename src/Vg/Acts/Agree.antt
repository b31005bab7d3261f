-- ===== src/Vg/Acts/Agree.antt =====
-- Where the operations of src/vg.rs succeed, what they leave behind (Vg/Acts) is what the functions
-- that return nothing on a failure (Vg/Commit, Physical, Logical) return, and they fail alike.
use melvin.Prelude.{
  ℕ, ◌==◌, ◌≡◌, refl, ap, ◌∙◌, true, false, if◌then◌else◌, List, [], ◌∷◌, ◌++◌, Option, none, some,
  Bytes, bytes, from_utf8_lossy, Result, ok, err, panicked, out_of_fuel, ok_or, expect,
  no_data_area, pv_in_vg, no_contiguous_area, meta_lv_not_found, data_lv_not_found, lv_not_found,
  lv_exists, pv_in_use, pv_not_removed, bind_assoc,
}
use melvin.Prelude
use melvin.Prelude.Act.{Act, ◌>>=◌, lift, settled, settled-if, settled-bind, settled-reads}
use melvin.BTree
use melvin.BTree.{Ord, bytes_ord, contains_key, remove, get, values}
use melvin.Types.{Pv, Vg}
use melvin.Lv
use melvin.Disk.{Devices}
use melvin.Util.{make_uuid}
use melvin.Parser.TextMap.{TextMap}
use melvin.PvLabel.Header.{PvHeader, find_in_dev}
use melvin.PvLabel.Mda.Text.{read_metadata}
use melvin.PvLabel.Mda.Acts.{settled-write_metadata}
use melvin.Vg.{free_areas, find_contig}
use melvin.Vg.System.{System}
use melvin.Vg.Text
use melvin.Vg.Commit.{disk_map, next_seqno, commit_pv, commit_pvs, commit}
use melvin.Vg.Physical.{unaffiliated, nth_area, volume_of, in_use, pv_add, pv_remove}
use melvin.Vg.Logical.{
  new_lv, linear_segment, thinpool_segment, set_up, rename_device, doubled_hyphens,
  lv_create_linear, lv_create_thinpool, lv_remove,
}
use melvin.Vg.Acts.{
  commit_pv_act, commit_pvs_act, on_devices, commit_act, pv_add_act, pv_remove_act,
  lv_create_linear_act, lv_create_thinpool_act, lv_remove_act,
}

module _ {D : Type 0} (s : System D) (map : TextMap) where
  settled-commit_pv :
      (path : Option Bytes) (devices : Devices)
      → settled (commit_pv_act s map path devices) ≡ commit_pv s map path devices
  unfolding commit_pv_act commit_pv
  settled-commit_pv none devices = refl
  settled-commit_pv (some path) devices =
      settled-reads (λ ds. expect (find_in_dev s.crates path ds)) _ devices _
        (λ pvh. settled-write_metadata s.crates pvh.dev_path pvh.metadata_areas map devices)

  settled-commit_pvs :
      (pvs : List (Pv D)) (devices : Devices)
      → settled (commit_pvs_act s map pvs devices) ≡ commit_pvs s map pvs devices
  unfolding commit_pvs_act commit_pvs
  settled-commit_pvs [] devices = refl
  settled-commit_pvs (pv ∷ pvs) devices =
      settled-reads (λ _. s.path_of pv) _ devices _
        (λ path.
          settled-bind (commit_pv_act s map path) (commit_pvs_act s map pvs) (commit_pv s map path)
            (commit_pvs s map pvs) (settled-commit_pv path) (settled-commit_pvs pvs) devices)

module _ {D : Type 0} ⦃o : Ord D⦄ (s : System D) where
  settled-on_devices :
      (act : Act Devices (Unit {0})) (vg : Vg D) (devices : Devices)
      → settled (on_devices act (vg, devices))
        ≡ Prelude.◌>>=◌ (settled (act devices)) (λ devices1. ok (vg, devices1))
  settled-on_devices act vg devices = by_outcome (act devices)
    where
      by_outcome :
          (r : Devices × Result (Unit {0}))
          → settled {S = Vg D × Devices} ((vg, r.0), r.1)
            ≡ Prelude.◌>>=◌ (settled r) (λ devices1. ok (vg, devices1))
      by_outcome (ds, ok _) = refl
      by_outcome (ds, err e) = refl
      by_outcome (ds, panicked) = refl
      by_outcome (ds, out_of_fuel) = refl

  settled-commit :
      (vg : Vg D) (devices : Devices) → settled (commit_act s (vg, devices)) ≡ commit s vg devices
  unfolding commit_act commit
  settled-commit vg devices =
      settled-reads (λ _. Text.to_textmap s.to_u64 (next_seqno vg)) _ (next_seqno vg, devices) _
        (λ map.
          settled-on_devices (commit_pvs_act s (disk_map s vg.name map) (values vg.pvs))
            (next_seqno vg) devices
          ∙ ap (λ r. Prelude.◌>>=◌ r (λ devices1. ok (next_seqno vg, devices1)))
              (settled-commit_pvs s (disk_map s vg.name map) (values vg.pvs) devices))

  pub settled-pv_add :
      (path : Bytes) (vg : Vg D) (devices : Devices)
      → settled (pv_add_act s path (vg, devices)) ≡ pv_add s path vg devices
  unfolding pv_add_act pv_add
  settled-pv_add path vg devices =
      settled-reads (λ g. find_in_dev s.crates path g.1) _ (vg, devices) _
        (λ pvh.
          settled-reads (λ _. s.from_str (from_utf8_lossy path)) _ (vg, devices) _
            (λ dev.
              settled-reads
                (λ g. unaffiliated (read_metadata s.crates pvh.dev_path pvh.metadata_areas g.1)) _
                (vg, devices) _
                (λ _.
                  settled-reads (λ _. ok_or (nth_area 0 pvh.data_areas) no_data_area) _
                    (vg, devices) _
                    (λ da.
                      settled-if (vg.extent_size == 0) _ _ (vg, devices) refl
                        (settled-if (contains_key dev vg.pvs) _ _ (vg, devices) refl
                          (settled-commit
                            (record vg {
                              pvs = BTree.insert dev (volume_of pvh dev da vg.extent_size) vg.pvs;
                            })
                            devices))))))

  pub settled-pv_remove :
      (pvh : PvHeader) (vg : Vg D) (devices : Devices)
      → settled (pv_remove_act s pvh (vg, devices)) ≡ pv_remove s pvh vg devices
  unfolding pv_remove_act pv_remove
  settled-pv_remove pvh vg devices =
      settled-reads (λ _. s.from_str (from_utf8_lossy pvh.dev_path)) _ (vg, devices) _
        (λ dev.
          settled-if (in_use dev (values vg.lvs)) _ _ (vg, devices) refl
            (settled-if (contains_key dev vg.pvs) _ _ (vg, devices)
              (settled-commit (record vg { pvs = remove dev vg.pvs }) devices) refl))

  -- A value of the system, and what is done with it.
  lifted :
      {A : Type 0} (r : Result A) (k : A → Act (Vg D × Devices) (Unit {0})) (vg : Vg D)
      (devices : Devices) (g : A → Result (Vg D × Devices))
      → ((a : A) → settled (k a (vg, devices)) ≡ g a)
      → settled ((lift r >>= k) (vg, devices)) ≡ Prelude.◌>>=◌ r g
  lifted r k vg devices g h = settled-reads (λ _. r) k (vg, devices) g h

  pub settled-lv_create_linear :
      (name : Bytes) (n : ℕ) (vg : Vg D) (devices : Devices)
      → settled (lv_create_linear_act s name n (vg, devices)) ≡ lv_create_linear s name n vg devices
  unfolding lv_create_linear_act lv_create_linear
  settled-lv_create_linear name n vg devices =
      settled-if (contains_key name vg.lvs) _ _ (vg, devices) refl
        (lifted (free_areas vg) _ vg devices _ (λ free.
          lifted (ok_or (find_contig n free none) no_contiguous_area) _ vg devices _
            (λ (dev, start, len). lifted (make_uuid s.simple) _ vg devices _ (λ id.
              lifted
                (set_up s (doubled_hyphens vg.name ++ (bytes "-" ++ doubled_hyphens name)) dev start
                  len)
                _ vg devices _
                (λ _.
                  settled-commit
                    (record vg {
                      lvs =
                          BTree.insert name (new_lv s name id (linear_segment dev start n)) vg.lvs;
                    })
                    devices)))))

  pub settled-lv_remove :
      (name : Bytes) (vg : Vg D) (devices : Devices)
      → settled (lv_remove_act s name (vg, devices)) ≡ lv_remove s name vg devices
  unfolding lv_remove_act lv_remove
  settled-lv_remove name vg devices =
      let vg2 = record vg { lvs = remove name vg.lvs } in
      lifted (ok_or (get name vg.lvs) lv_not_found) _ vg devices _ (λ lv.
        lifted s.dm_new _ vg2 devices _ (λ _. lifted (s.dm_name lv.name) _ vg2 devices _ (λ dm_name.
          lifted (s.device_suspend dm_name true) _ vg2 devices _ (λ _.
            lifted (s.device_remove dm_name) _ vg2 devices _ (λ _. settled-commit vg2 devices)))))

  pub settled-lv_create_thinpool :
      (name meta data_name : Bytes) (vg : Vg D) (devices : Devices)
      → settled (lv_create_thinpool_act s name meta data_name (vg, devices))
        ≡ lv_create_thinpool s name meta data_name vg devices
  unfolding lv_create_thinpool_act lv_create_thinpool
  settled-lv_create_thinpool name meta data_name vg devices = lifted s.dm_new _ vg devices _ (λ _.
      lifted (ok_or (get meta vg.lvs) meta_lv_not_found) _ vg devices _ (λ meta_lv.
        let lvs = BTree.insert meta (record meta_lv { name = name ++ bytes "_tmeta" }) vg.lvs in
        let vg2 = record vg { lvs = lvs } in
        lifted (rename_device s name (name ++ bytes "_tmeta")) _ vg devices _ (λ _.
          lifted (ok_or (get data_name lvs) data_lv_not_found) _ vg2 devices _ (λ _.
            lifted (rename_device s name (name ++ bytes "_tdata")) _ vg2 devices _ (λ _.
              lifted (make_uuid s.simple) _ vg2 devices _ (λ id.
                lifted s.dm_new _ vg2 devices _ (λ _.
                  lifted (s.dm_name name) _ vg2 devices _ (λ dm_name.
                    lifted (s.device_suspend dm_name false) _ vg2 devices _ (λ _.
                      settled-commit
                        (record vg {
                          lvs =
                              BTree.insert name
                                (new_lv s name id
                                  (thinpool_segment (Lv.used_extents meta_lv) meta data_name))
                                lvs;
                        })
                        devices)))))))))
