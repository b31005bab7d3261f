-- ===== src/Vg/Acts/Kept.antt =====
-- Every operation of src/vg.rs leaves a consistent group behind, also where it fails.
use melvin.Prelude.{
  ℕ, ◌==◌, ◌≡◌, true, false, ◌++◌, none, Bytes, bytes, from_utf8_lossy, Result, ok, ok_or,
  ok_or-inv, no_data_area, no_contiguous_area, meta_lv_not_found, data_lv_not_found, lv_not_found,
}
use melvin.Prelude.Act.{Act, ◌>>=◌, lift, kept-reads, kept-if}
use melvin.BTree.{Ord, bytes_ord, insert, contains_key, remove, get, values}
use melvin.Types.{Lv, Vg}
use melvin.Lv
use melvin.Lv.Segments.{pv_dependencies}
use melvin.Disk.{Devices}
use melvin.Util.{make_uuid}
use melvin.PvLabel.Header.{PvHeader, find_in_dev}
use melvin.PvLabel.Mda.Text.{read_metadata}
use melvin.Vg.{free_areas, find_contig}
use melvin.Vg.System.{System}
use melvin.Vg.Text
use melvin.Vg.Commit.{next_seqno}
use melvin.Vg.Physical.{unaffiliated, nth_area, volume_of, in_use}
use melvin.Vg.Logical.{
  new_lv, linear_segment, thinpool_segment, set_up, rename_device, doubled_hyphens,
}
use melvin.Vg.Acts.{
  commit_act, pv_add_act, pv_remove_act, lv_create_linear_act, lv_create_thinpool_act,
  lv_remove_act,
}
use melvin.Vg.Consistent.{
  IsConsistent, AreConsistent-insert_pv, AreConsistent-remove_pv, AreConsistent-insert_lv,
  AreConsistent-remove_lv, standing-get,
}
use melvin.Vg.Total.{free_areas-HavePvs, find_contig-Has}
use melvin.Vg.Preserved.{named-volume_of, linear-stands}

module _ {D : Type 0} ⦃o : Ord D⦄ (s : System D) where
  -- The group of the state.
  abbrev IsFine : Vg D × Devices → Type 0
  IsFine (vg, devices) = IsConsistent vg

  commit_act-IsFine :
      (vg : Vg D) (devices : Devices) → IsConsistent vg → IsFine (commit_act s (vg, devices)).0
  unfolding commit_act
  commit_act-IsFine vg devices h =
      kept-reads IsFine (λ _. Text.to_textmap s.to_u64 (next_seqno vg)) _ (next_seqno vg, devices) h
        (λ map e. h)

  -- A value of the system, and what is done with it.
  lifted :
      {A : Type 0} (r : Result A) (k : A → Act (Vg D × Devices) (Unit {0})) (vg : Vg D)
      (devices : Devices)
      → IsConsistent vg
      → ((a : A) → r ≡ ok a → IsFine (k a (vg, devices)).0)
      → IsFine ((lift r >>= k) (vg, devices)).0
  lifted r k vg devices h next_holds = kept-reads IsFine (λ _. r) k (vg, devices) h next_holds

  pub pv_add_act-IsConsistent :
      (path : Bytes) (vg : Vg D) (devices : Devices)
      → IsConsistent vg
      → IsConsistent (pv_add_act s path (vg, devices)).0.0
  unfolding pv_add_act
  pv_add_act-IsConsistent path vg devices h =
      kept-reads IsFine (λ g. find_in_dev s.crates path g.1) _ (vg, devices) h
        (λ pvh _. lifted (s.from_str (from_utf8_lossy path)) _ vg devices h (λ dev _.
          kept-reads IsFine
            (λ g. unaffiliated (read_metadata s.crates pvh.dev_path pvh.metadata_areas g.1)) _
            (vg, devices) h
            (λ _ _. lifted (ok_or (nth_area 0 pvh.data_areas) no_data_area) _ vg devices h (λ da _.
              let v = volume_of pvh dev da vg.extent_size in
              let with_pv =
                AreConsistent-insert_pv vg.pvs vg.lvs h dev v
                  (named-volume_of pvh dev da vg.extent_size) in
              kept-if IsFine (vg.extent_size == 0) _ _ (vg, devices) (λ _. h)
                (λ _.
                  kept-if IsFine (contains_key dev vg.pvs) _ _ (vg, devices) (λ _. h)
                    (λ _.
                      commit_act-IsFine (record vg { pvs = insert dev v vg.pvs }) devices
                        with_pv))))))

  pub pv_remove_act-IsConsistent :
      (pvh : PvHeader) (vg : Vg D) (devices : Devices)
      → IsConsistent vg
      → IsConsistent (pv_remove_act s pvh (vg, devices)).0.0
  unfolding pv_remove_act
  pv_remove_act-IsConsistent pvh vg devices h =
      lifted (s.from_str (from_utf8_lossy pvh.dev_path)) _ vg devices h (λ dev _.
        kept-if IsFine (in_use dev (values vg.lvs)) _ _ (vg, devices) (λ _. h)
          (λ unused.
            kept-if IsFine (contains_key dev vg.pvs) _ _ (vg, devices)
              (λ _.
                commit_act-IsFine (record vg { pvs = remove dev vg.pvs }) devices
                  (AreConsistent-remove_pv vg.pvs vg.lvs h dev unused))
              (λ _. h)))

  pub lv_create_linear_act-IsConsistent :
      (name : Bytes) (n : ℕ) (vg : Vg D) (devices : Devices)
      → IsConsistent vg
      → IsConsistent (lv_create_linear_act s name n (vg, devices)).0.0
  unfolding lv_create_linear_act
  lv_create_linear_act-IsConsistent name n vg devices h =
      let (fm, searched, all) = free_areas-HavePvs vg h in
      kept-if IsFine (contains_key name vg.lvs) _ _ (vg, devices) (λ _. h)
        (λ _. lifted (free_areas vg) _ vg devices h (λ free e.
          lifted (ok_or (find_contig n free none) no_contiguous_area) _ vg devices h
            (λ (dev, start, len) found. lifted (make_uuid s.simple) _ vg devices h (λ id _.
              lifted
                (set_up s (doubled_hyphens vg.name ++ (bytes "-" ++ doubled_hyphens name)) dev start
                  len)
                _ vg devices h
                (λ _ _.
                  let same_fm : fm ≡ free = cc in
                  let has =
                    find_contig-Has vg free n dev start len (rw same_fm at all)
                      (ok_or-inv _ _ _ found) in
                  let lv = new_lv s name id (linear_segment dev start n) in
                  commit_act-IsFine (record vg { lvs = insert name lv vg.lvs }) devices
                    (AreConsistent-insert_lv vg.pvs vg.lvs h name lv
                      (λ e2. linear-stands vg dev e2 s name id start n has)))))))

  pub lv_remove_act-IsConsistent :
      (name : Bytes) (vg : Vg D) (devices : Devices)
      → IsConsistent vg
      → IsConsistent (lv_remove_act s name (vg, devices)).0.0
  unfolding lv_remove_act
  lv_remove_act-IsConsistent name vg devices h =
      let vg2 = record vg { lvs = remove name vg.lvs } in
      let h2 = AreConsistent-remove_lv vg.pvs vg.lvs h name in
      lifted (ok_or (get name vg.lvs) lv_not_found) _ vg devices h (λ lv _.
        lifted s.dm_new _ vg2 devices h2 (λ _ _.
          lifted (s.dm_name lv.name) _ vg2 devices h2 (λ dm_name _.
            lifted (s.device_suspend dm_name true) _ vg2 devices h2 (λ _ _.
              lifted (s.device_remove dm_name) _ vg2 devices h2
                (λ _ _. commit_act-IsFine vg2 devices h2)))))

  pub lv_create_thinpool_act-IsConsistent :
      (name meta data_name : Bytes) (vg : Vg D) (devices : Devices)
      → IsConsistent vg
      → IsConsistent (lv_create_thinpool_act s name meta data_name (vg, devices)).0.0
  unfolding lv_create_thinpool_act pv_dependencies
  lv_create_thinpool_act-IsConsistent name meta data_name vg devices h =
      lifted s.dm_new _ vg devices h (λ _ _.
        lifted (ok_or (get meta vg.lvs) meta_lv_not_found) _ vg devices h (λ meta_lv there.
          let renamed : Lv D = record meta_lv { name = name ++ bytes "_tmeta" } in
          let lvs = insert meta renamed vg.lvs in
          let vg2 = record vg { lvs = lvs } in
          let h2 =
            AreConsistent-insert_lv vg.pvs vg.lvs h meta renamed
              (standing-get vg.pvs vg.lvs h meta meta_lv (ok_or-inv _ _ _ there)) in
          lifted (rename_device s name (name ++ bytes "_tmeta")) _ vg devices h (λ _ _.
            lifted (ok_or (get data_name lvs) data_lv_not_found) _ vg2 devices h2 (λ _ _.
              lifted (rename_device s name (name ++ bytes "_tdata")) _ vg2 devices h2 (λ _ _.
                lifted (make_uuid s.simple) _ vg2 devices h2 (λ id _.
                  lifted s.dm_new _ vg2 devices h2 (λ _ _.
                    lifted (s.dm_name name) _ vg2 devices h2 (λ dm_name _.
                      lifted (s.device_suspend dm_name false) _ vg2 devices h2 (λ _ _.
                        let pool =
                          new_lv s name id
                            (thinpool_segment (Lv.used_extents meta_lv) meta data_name) in
                        commit_act-IsFine (record vg { lvs = insert name pool lvs }) devices
                          (AreConsistent-insert_lv vg.pvs lvs h2 name pool (λ e used. cc)))))))))))
