-- ===== src/Vg/System.antt =====
-- What the operations of src/vg.rs get from outside: the crates, the clock, the name of the host, the
-- paths of devices, and the answers of the device mapper during the call.
use melvin.Prelude.{ℕ, ℤ, List, Option, Bytes, Bool, Result}
use melvin.Crates.{Crates}
use melvin.Types.{Pv}

-- `TargetLine` with `LinearTargetParams`: `length` sectors from `start` on are those of `device` from
-- `offset` on.
pub record TargetLine (D : Type 0) : Type 0 where
  pub start : ℕ
  pub length : ℕ
  pub device : D
  pub offset : ℕ

pub record System (D : Type 0) : Type 0 where
  pub crates : Crates
  -- `Device::from(u64)`, `u64::from(Device)` and `Device::from_str`
  pub from_u64 : ℕ → D
  pub to_u64 : D → ℕ
  pub from_str : Bytes → Result D
  -- `PV::path` (Pv/Path) on what /proc/partitions holds
  pub path_of : Pv D → Result (Option Bytes)
  -- what the uuid crate makes
  pub simple : Bytes
  pub nodename : Bytes
  pub now : ℤ
  -- `DM::new`, `DmName::new` and the calls of the device mapper
  pub dm_new : Result (Unit {0})
  pub dm_name : Bytes → Result Bytes
  pub linear_setup : Bytes → List (TargetLine D) → Result (Unit {0})
  pub device_rename : Bytes → Bytes → Result (Unit {0})
  -- with `DM_SUSPEND` or without
  pub device_suspend : Bytes → Bool → Result (Unit {0})
  pub device_remove : Bytes → Result (Unit {0})
