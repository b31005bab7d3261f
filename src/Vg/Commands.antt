-- ===== src/Vg/Commands.antt =====
-- The operations of src/vg.rs that change a group, as commands: with what a failure leaves behind, and
-- without.
use melvin.Prelude.{ℕ, ◌≡◌, Bytes, Result}
use melvin.Prelude.Act.{Act, settled}
use melvin.BTree.{Ord}
use melvin.Types.{Vg}
use melvin.Disk.{Devices}
use melvin.PvLabel.Header.{PvHeader}
use melvin.Vg.System.{System}
use melvin.Vg.Physical.{pv_add, pv_remove}
use melvin.Vg.Logical.{lv_create_linear, lv_create_thinpool, lv_remove}
use melvin.Vg.Acts.{
  pv_add_act, pv_remove_act, lv_create_linear_act, lv_create_thinpool_act, lv_remove_act,
}
use melvin.Vg.Acts.Agree.{
  settled-pv_add, settled-pv_remove, settled-lv_create_linear, settled-lv_create_thinpool,
  settled-lv_remove,
}

-- The operations that change a group.
pub data Command : Type 0 where
  add_pv : Bytes → Command
  remove_pv : PvHeader → Command
  create_linear : Bytes → ℕ → Command
  create_thinpool : Bytes → Bytes → Bytes → Command
  remove_lv : Bytes → Command

module _ {D : Type 0} ⦃o : Ord D⦄ where
  abbrev pub apply : System D → Command → Vg D → Devices → Result (Vg D × Devices)
  apply s (add_pv path) vg devices = pv_add s path vg devices
  apply s (remove_pv pvh) vg devices = pv_remove s pvh vg devices
  apply s (create_linear name extent_size) vg devices =
      lv_create_linear s name extent_size vg devices
  apply s (create_thinpool name meta data_name) vg devices =
      lv_create_thinpool s name meta data_name vg devices
  apply s (remove_lv name) vg devices = lv_remove s name vg devices

  abbrev pub perform : System D → Command → Act (Vg D × Devices) (Unit {0})
  perform s (add_pv path) = pv_add_act s path
  perform s (remove_pv pvh) = pv_remove_act s pvh
  perform s (create_linear name extent_size) = lv_create_linear_act s name extent_size
  perform s (create_thinpool name meta data_name) = lv_create_thinpool_act s name meta data_name
  perform s (remove_lv name) = lv_remove_act s name

  -- Every operation, run write by write with the group and the devices as a failure leaves them, ends as
  -- the function that returns no group on a failure, and if it succeeds, with the same group and
  -- devices.
  pub settled-perform :
      (s : System D) (c : Command) (vg : Vg D) (devices : Devices)
      → settled (perform s c (vg, devices)) ≡ apply s c vg devices
  settled-perform s (add_pv path) = settled-pv_add s path
  settled-perform s (remove_pv pvh) = settled-pv_remove s pvh
  settled-perform s (create_linear name n) = settled-lv_create_linear s name n
  settled-perform s (create_thinpool name meta data_name) =
      settled-lv_create_thinpool s name meta data_name
  settled-perform s (remove_lv name) = settled-lv_remove s name
