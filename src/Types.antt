-- ===== src/Types.antt =====
-- The structures of src/lv.rs, src/pv.rs and src/vg.rs. `D` is the `Device` of the devicemapper crate.
use melvin.Prelude.{ℕ, ℤ, Bool, List, Option, Bytes}
use melvin.BTree.{BTreeMap}

-- A physical volume: sizes in sectors, `pe_count` in extents.
pub record Pv (D : Type 0) : Type 0 where
  pub id : Bytes
  pub device : D
  pub status : List Bytes
  pub flags : List Bytes
  pub dev_size : ℕ
  pub pe_start : ℕ
  pub pe_count : ℕ

pub record StripedSegment (D : Type 0) : Type 0 where
  pub start_extent : ℕ
  pub extent_count : ℕ
  pub stripe_size : Option ℕ
  pub stripes : List (D × ℕ)

pub data DiscardPolicy : Type 0 where
  passdown no_passdown ignore : DiscardPolicy

pub record ThinpoolSegment : Type 0 where
  pub start_extent : ℕ
  pub extent_count : ℕ
  pub metadata_lv : Bytes
  pub data_lv : Bytes
  pub transaction_id : ℕ
  pub chunk_size : ℕ
  pub discards : DiscardPolicy
  pub zero_new_blocks : Bool

pub record ThinSegment : Type 0 where
  pub start_extent : ℕ
  pub extent_count : ℕ
  pub thin_pool : Bytes
  pub transaction_id : ℕ
  pub device_id : ℕ

-- `Box<dyn Segment>`
pub data Segment (D : Type 0) : Type 0 where
  striped : StripedSegment D → Segment D
  thinpool : ThinpoolSegment → Segment D
  thin : ThinSegment → Segment D

-- A logical volume.
pub record Lv (D : Type 0) : Type 0 where
  pub name : Bytes
  pub id : Bytes
  pub status : List Bytes
  pub flags : List Bytes
  pub creation_host : Bytes
  pub creation_time : ℤ
  pub segments : List (Segment D)
  pub device : Option D

-- A volume group.
pub record Vg (D : Type 0) : Type 0 where
  pub name : Bytes
  pub id : Bytes
  pub seqno : ℕ
  pub format : Bytes
  pub status : List Bytes
  pub flags : List Bytes
  pub extent_size : ℕ
  pub max_lv : ℕ
  pub max_pv : ℕ
  pub metadata_copies : ℕ
  pub pvs : BTreeMap D (Pv D)
  pub lvs : BTreeMap Bytes (Lv D)
