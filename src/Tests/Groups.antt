-- ===== src/Tests/Groups.antt =====
-- Runs of the operations of src/vg.rs, and their theorems at concrete inputs.
use melvin.Prelude.{
  ◌+◌, ◌-◌, ◌*◌, ◌/◌, ◌%◌, ◌^◌, ◌⊎◌, inl, ◌≤◌, ◌≡◌, ◌≢◌, refl, true, false, ℕ, List, [], ◌∷◌, ◌++◌,
  none, some, arith, Bytes, bytes, pos, two64, ok, err, Result, length, same, before,
  from_utf8_lossy, format_u64, format_i64,
}
use melvin.BTree.{BTreeMap, bytes_ord, insert, get, remove, contains_key, collect}
use melvin.Types.{Pv, Vg}
use melvin.Util.{hyphenate_uuid}
use melvin.PvLabel.Areas.{PvArea}
use melvin.PvLabel.Header.{PvHeader, fresh_header}
use melvin.Parser.TextMap
use melvin.Parser.TextMap.{TextMap, Entry, Entries, nil, cons, bind, empty}
use melvin.Lv
use melvin.Lv.Segments
use melvin.Pv
use melvin.Vg.{
  Areas, nat_ord, free_areas, used_areas, find_contig, first_fit, add_area, fold_areas, around_used,
  add_unused,
}
use melvin.Vg.Text
use melvin.Vg.Search.{IsArea}
use melvin.Vg.System.{System}
use melvin.Vg.Commit.{commit, commit_pv, commit_pvs, next_seqno}
use melvin.Vg.Physical.{new_vg}
use melvin.Vg.Logical.{lv_create_linear, lv_remove, new_lv, linear_segment, set_up}
use melvin.Vg.Linear.{lv_create_linear-get, lv_remove-lv_create_linear}
use melvin.Types.{StripedSegment, striped}
use melvin.Vg.Params.{dm_params, device_at}
use melvin.Vg.Params.Located.{dm_params-inside}
use melvin.Tests.{digits}
use melvin.Tests.Devices.{codec, path}

-- A host on which no path is found, and the device mapper refuses nothing.
abbrev pub host : System ℕ
host = record {
  crates = codec;
  from_u64 = λ n. n;
  to_u64 = λ n. n;
  from_str = λ _. ok 2049;
  path_of = λ _. ok none;
  simple = digits;
  nodename = bytes "host";
  now = pos 1420;
  dm_new = ok tt;
  dm_name = λ name. ok name;
  linear_setup = λ name table. ok tt;
  device_rename = λ from to. ok tt;
  device_suspend = λ name flag. ok tt;
  device_remove = λ name. ok tt;
}

abbrev pub uuid : Bytes
uuid = bytes "012345-6789-abcd-ef01-2345-6789-abcdef"

-- A device of 64 MiB.
abbrev pub header : PvHeader
header = fresh_header uuid 67108864 path

abbrev data_area : PvArea
data_area = record { offset = 1048576; size = 0 }

abbrev pub one_volume : Pv ℕ
one_volume = record {
  id = uuid;
  device = 2049;
  status = bytes "ALLOCATABLE" ∷ [];
  flags = [];
  dev_size = 131072;
  pe_start = 8192;
  pe_count = 14;
}

abbrev pub group : Vg ℕ
group = record (new_vg (bytes "vg0") uuid) { seqno = 1; pvs = (2049, one_volume) ∷ [] }

abbrev pub with_root : Vg ℕ
with_root = record group {
  seqno = 2;
  lvs = (bytes "root", new_lv host (bytes "root") uuid (linear_segment 2049 0 3)) ∷ [];
}

pub create_root : lv_create_linear host (bytes "root") 3 group [] ≡ ok (with_root, [])
unfolding lv_create_linear free_areas used_areas contains_key around_used find_contig add_unused
    insert hyphenate_uuid set_up commit Text.to_textmap get Text.dev_to_idx collect Lv.to_textmap
    Segments.to_textmap Segments.store_stripes commit_pvs commit_pv Segments.striped_to_textmap
    Segments.used_areas Lv.store_segments Lv.used_areas TextMap.insert format_u64
    melvin.Prelude.as_i64 before same from_utf8_lossy Pv.to_textmap Text.numbered Text.store_lvs
    Text.store_pvs Text.vg_header Text.with_lvs add_area first_fit fold_areas
create_root = refl

remove_root : lv_remove host (bytes "root") with_root [] ≡ ok (record group { seqno = 3 }, [])
unfolding lv_remove get remove same commit Text.to_textmap insert Text.dev_to_idx collect commit_pvs
    commit_pv TextMap.insert format_u64 melvin.Prelude.as_i64 before Pv.to_textmap Text.numbered
    Text.store_pvs Text.vg_header Text.with_lvs
remove_root = refl

lv_create_linear-get_example :
    (free : BTreeMap ℕ Areas) × (dev : ℕ) × (start len : ℕ) × (id : Bytes) × (free_areas group
      ≡ ok free)
    × IsArea free dev start len
    × (3 ≤ len)
    × (get (bytes "root") group.lvs ≡ none)
    × (get (bytes "root") with_root.lvs
        ≡ some (new_lv host (bytes "root") id (linear_segment dev start 3)))
    × ((other : Bytes)
        → same other (bytes "root") ≡ false
        → get other with_root.lvs ≡ get other group.lvs)
    × (with_root.pvs ≡ group.pvs)
    × (with_root.name ≡ group.name)
lv_create_linear-get_example =
    lv_create_linear-get host (bytes "root") 3 group with_root [] [] create_root

lv_remove-lv_create_linear_example : record group { seqno = 3 } ≡ next_seqno (next_seqno group)
lv_remove-lv_create_linear_example =
    lv_remove-lv_create_linear host host (bytes "root") 3 group with_root
      (record group { seqno = 3 }) [] [] [] [] create_root remove_root

abbrev root_segment : StripedSegment ℕ
root_segment = record {
  start_extent = 0;
  extent_count = 3;
  stripe_size = none;
  stripes = (2049, 0) ∷ [];
}

dm_params-inside_example :
    (sector : ℕ) × (dm_params (λ d. d / 256) (λ d. d % 256) with_root (striped root_segment)
      ≡ ok (device_at (λ d. d / 256) (λ d. d % 256) 2049 sector))
    × (8192 ≤ sector)
    × (sector + 3 * 8192 ≤ 131072)
unfolding get
dm_params-inside_example =
    dm_params-inside (λ d. d / 256) (λ d. d % 256) with_root 2049 one_volume root_segment 0 refl
      refl (omega arith) (omega arith) (omega arith)
