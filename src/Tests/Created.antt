-- ===== src/Tests/Created.antt =====
-- A group that `create` of src/vg.rs makes on a concrete device, and theorems on such groups.
use melvin.Prelude.{
  ◌+◌, ◌-◌, ◌*◌, ◌/◌, ◌%◌, ◌^◌, ◌⊎◌, inl, ◌≤◌, ◌<◌, ◌≡◌, ◌≢◌, refl, true, false, ℕ, List, [], ◌∷◌,
  ◌++◌, none, some, arith, Bytes, bytes, pos, two64, suc, ok, err, Result, length, length-append,
  same, before, from_utf8_lossy, parse_u32, split_whitespace, format_u64, format_i64,
}
use melvin.BTree
use melvin.BTree.{BTreeMap, bytes_ord, insert, get, remove, contains_key, collect}
use melvin.Disk.{Disk, Devices, read, zeroed}
use melvin.Util.{align_to, hyphenate_uuid}
use melvin.Parser.TextMap
use melvin.Parser.TextMap.{TextMap, Entry, Entries, nil, cons, bind, empty}
use melvin.Pv
use melvin.Pv.Path
use melvin.Vg.{Areas, nat_ord, free_areas}
use melvin.Vg.Text
use melvin.Vg.System.{System}
use melvin.Vg.Commit.{disk_map, commit}
use melvin.Vg.Physical.{volume_of, create}
use melvin.Vg.Logical.{new_lv, linear_segment}
use melvin.Vg.Reached.{Reached, created, stepped-ok, IsConsistent-Reached, calls_succeed-Reached}
use melvin.Vg.Commands.{create_linear}
use melvin.PvLabel.RoundTrip.{initialized, find_in_dev-initialized}
use melvin.Vg.Around.{HavePvs}
use melvin.Vg.Commit.RoundTrip.{Target, AreTargets, AreWritten, commit_round_trip}
use melvin.PvLabel.Mda.Text.{read_metadata}
use melvin.PvLabel.Mda.Devices.{open_file-insert}
use melvin.PvLabel.FirstWrite.{mda0, mda1, mda0-IsReady, mda1-IsReady}
use melvin.Vg.Create.{create_round_trip}
use melvin.Parser.Printer.{textmap_to_buf}
use melvin.Parser.Printable.{IsPrintable}
use melvin.Tests.Printable.{is_printable-IsPrintable}
use melvin.Tests.{digits}
use melvin.Tests.Devices.{codec, codec-IsLittleEndian, path}
use melvin.Tests.Groups.{host, uuid, header, one_volume, group, with_root, create_root}
use melvin.Types.{StripedSegment, striped}
use mathlib.Core.List.{Memᴰ}
use mathlib.Core.List.Memᴰ.{head}
use melvin.PvLabel.Header.{find_in_dev, labelled, pvheader_scan}
use melvin.PvLabel.Scan.{IsLabelled, pvheader_scan_sound, pvheader_scan_complete}
use melvin.Prelude.{Result, Option, if◌then◌else◌}
use melvin.Vg.Params.{dm_params}
use melvin.Vg.Params.Located.{dm_params-IsConsistent}

-- A device of 64 MiB that was just initialized.
abbrev pub fresh : Disk
fresh = initialized codec digits (record { size = 67108864; store = zeroed })

-- What `create` writes for the group.
abbrev pub group_map : TextMap
group_map = bind (bytes "extent_size") (Entry.number (pos 8192)) (
    bind (bytes "flags") (Entry.list nil) (
      bind (bytes "format") (Entry.string (bytes "lvm2")) (
        bind (bytes "id") (Entry.string (bytes "012345-6789-abcd-ef01-2345-6789-abcdef")) (
          bind (bytes "max_lv") (Entry.number (pos 0)) (
            bind (bytes "max_pv") (Entry.number (pos 0)) (
              bind (bytes "metadata_copies") (Entry.number (pos 0)) (
                bind (bytes "physical_volumes")
                  (Entry.text_map (
                    bind (bytes "pv0")
                      (Entry.text_map (
                        bind (bytes "dev_size") (Entry.number (pos 131072)) (
                          bind (bytes "device") (Entry.number (pos 2049)) (
                            bind (bytes "flags") (Entry.list nil) (
                              bind (bytes "id")
                                (Entry.string (bytes "012345-6789-abcd-ef01-2345-6789-abcdef"))
                                (bind (bytes "pe_count") (Entry.number (pos 14)) (
                                  bind (bytes "pe_start") (Entry.number (pos 8192)) (
                                    bind (bytes "status")
                                      (Entry.list (cons (Entry.string (bytes "ALLOCATABLE")) nil))
                                      empty))))))))
                      empty))
                  (bind (bytes "seqno") (Entry.number (pos 1)) (
                    bind (bytes "status")
                      (Entry.list (
                        cons (Entry.string (bytes "READ")) (
                          cons (Entry.string (bytes "WRITE"))
                            (cons (Entry.string (bytes "RESIZEABLE")) nil))))
                      empty)))))))))

abbrev pub group_text : Bytes
group_text =
    bytes "contents = \"Melvin Text Format Volume Group\"\n"
    ++ (bytes "creation_host = \"host\"\ncreation_time = 1420\ndescription = \"\"\n"
        ++ (bytes "version = 1\nvg0 {\nextent_size = 8192\nflags = []\n"
            ++ (bytes "format = \"lvm2\"\nid = \"012345-6789-abcd-ef01-2345-6789-abcdef\"\n"
                ++ (bytes "max_lv = 0\nmax_pv = 0\nmetadata_copies = 0\nphysical_volumes {\n"
                    ++ (bytes "pv0 {\ndev_size = 131072\ndevice = 2049\nflags = []\n"
                        ++ (bytes "id = \"012345-6789-abcd-ef01-2345-6789-abcdef\"\npe_count = 14\n"
                            ++ (bytes
                                  "pe_start = 8192\nstatus = [\"ALLOCATABLE\"]\n}\n}\nseqno = 1\n"
                                ++ (bytes
                                    "status = [\"READ\", \"WRITE\", \"RESIZEABLE\"]\n}\n"))))))))

-- A host that lists the device in /proc/partitions: 2049 is 8:1.
abbrev pub host_with_device : System ℕ
host_with_device = record host {
  path_of =
      Path.path (λ d. d / 256) (λ d. d % 256)
        (some (
          some (bytes "major minor  #blocks  name")
          ∷ some []
          ∷ some (bytes "   8        0     131072 sda")
          ∷ some (bytes "   8        1      65536 sda1")
          ∷ []));
}

pub path_of-one_volume : host_with_device.path_of one_volume ≡ ok (some path)
unfolding Path.path parse_u32 split_whitespace
path_of-one_volume = refl

pub group-group_map : Text.to_textmap (λ n. n) group ≡ ok group_map
unfolding Text.to_textmap insert get Text.dev_to_idx collect TextMap.insert format_u64
    melvin.Prelude.as_i64 before same Pv.to_textmap Text.numbered Text.store_pvs Text.vg_header
    Text.with_lvs TextMap.entries_of
group-group_map = refl

pub frame-IsPrintable : IsPrintable (disk_map host_with_device (bytes "vg0") group_map)
unfolding TextMap.insert before same
frame-IsPrintable =
    is_printable-IsPrintable (disk_map host_with_device (bytes "vg0") group_map) refl

pub frame-group_text :
    textmap_to_buf (disk_map host_with_device (bytes "vg0") group_map) ≡ ok group_text
unfolding TextMap.insert before same textmap_to_buf format_i64
frame-group_text = refl

pub fresh-unlabelled : same (read 0 8 zeroed) (bytes "LABELONE") ≡ false
unfolding same read
fresh-unlabelled = refl

create_round_trip_example :
    (devices : Devices) × (create host_with_device
        (bytes "vg0")
        (path ∷ [])
        (BTree.insert path fresh [])
      ≡ ok (group, devices))
    × (read_metadata codec path
          (mda0 ∷ mda1 (record { size = 67108864; store = zeroed }) ∷ [])
          devices
        ≡ ok (disk_map host_with_device (bytes "vg0") group_map))
unfolding hyphenate_uuid volume_of align_to from_utf8_lossy
create_round_trip_example =
    create_round_trip host_with_device (bytes "vg0") path digits uuid uuid 2049
      (record { size = 67108864; store = zeroed }) (BTree.insert path fresh []) group_map group_text
      codec-IsLittleEndian (open_file-insert path fresh []) refl refl refl (omega arith)
      (omega arith) fresh-unlabelled refl path_of-one_volume group-group_map frame-IsPrintable
      frame-group_text (omega arith)

abbrev pub unformatted : Disk
unformatted = record { size = 67108864; store = zeroed }

abbrev pub one_target : List Target
one_target = record { path = path; area = mda0; areas = mda1 unformatted ∷ [] } ∷ []

-- The device can be written to with every short text.
pub fresh-AreTargets :
    (text : Bytes)
    → length text ≤ 4096
    → AreTargets host_with_device text (one_volume ∷ []) one_target (BTree.insert path fresh [])
unfolding hyphenate_uuid from_utf8_lossy
fresh-AreTargets text short = (
  record {
    named = path_of-one_volume;
    pvh = header;
    header =
        find_in_dev-initialized codec digits path uuid (BTree.insert path fresh []) unformatted
          codec-IsLittleEndian (open_file-insert path fresh []) refl refl (omega arith)
          (omega arith) fresh-unlabelled;
    at_path = refl;
    with_areas = refl;
    d = fresh;
    opened = open_file-insert path fresh [];
    ready = (
      mda0-IsReady codec codec-IsLittleEndian digits (text ++ 0 ∷ []) unformatted (omega arith)
          (omega arith) (omega (arith, length-append text (0 ∷ []))),
      (
        mda1-IsReady codec codec-IsLittleEndian digits (text ++ 0 ∷ []) unformatted (omega arith)
            (omega arith) (omega (arith, length-append text (0 ∷ []))),
        tt,
      ),
    );
    apart = ((inl (omega arith), tt), (tt, tt));
  },
  tt,
  tt,
)

commit_round_trip_example :
    (devices : Devices) × (commit host_with_device
        (record group { seqno = 0 })
        (BTree.insert path fresh [])
      ≡ ok (group, devices))
    × AreWritten host_with_device
        (disk_map host_with_device (bytes "vg0") group_map)
        one_target
        devices
commit_round_trip_example =
    commit_round_trip host_with_device (record group { seqno = 0 }) group_map group_text one_target
      (BTree.insert path fresh []) codec-IsLittleEndian group-group_map frame-IsPrintable
      frame-group_text (fresh-AreTargets group_text (omega arith))

pub group-Reached : Reached group
group-Reached =
    let (devices, made, _) = create_round_trip_example in
    created host_with_device (bytes "vg0") (path ∷ []) (BTree.insert path fresh []) devices group
      made

pub with_root-Reached : Reached with_root
with_root-Reached =
    stepped-ok host (create_linear (bytes "root") 3) [] [] group with_root group-Reached create_root

calls_succeed-Reached_example :
    ((map : TextMap) × (Text.to_textmap (λ n. n) with_root ≡ ok map))
    × ((free : BTreeMap ℕ Areas) × (free_areas with_root ≡ ok free) × HavePvs with_root.pvs free)
calls_succeed-Reached_example = calls_succeed-Reached (λ n. n) with_root with_root-Reached

abbrev created_segment : StripedSegment ℕ
created_segment = record {
  start_extent = 0;
  extent_count = 3;
  stripe_size = none;
  stripes = (2049, 0) ∷ [];
}

dm_params-IsConsistent_example :
    (text : Bytes) × (dm_params (λ d. d / 256) (λ d. d % 256) with_root (striped created_segment)
      ≡ ok text)
unfolding get same
dm_params-IsConsistent_example =
    dm_params-IsConsistent (λ d. d / 256) (λ d. d % 256) with_root (bytes "root")
      (new_lv host (bytes "root") uuid (linear_segment 2049 0 3)) created_segment
      (IsConsistent-Reached with_root with_root-Reached) refl (head refl) (inl refl)

abbrev pub dev_dir : Bytes → Result (List Bytes)
dev_dir dir = ok (path ∷ bytes "/dev/tty" ∷ [])

abbrev pub modes : Bytes → Option ℕ
modes p = some (if same p path then 0x6000 else 0x2000)

fresh-header : find_in_dev codec path (BTree.insert path fresh []) ≡ ok header
unfolding hyphenate_uuid from_utf8_lossy
fresh-header =
    find_in_dev-initialized codec digits path uuid (BTree.insert path fresh []) unformatted
      codec-IsLittleEndian (open_file-insert path fresh []) refl refl (omega arith) (omega arith)
      fresh-unlabelled

scan_run :
    pvheader_scan codec dev_dir modes (BTree.insert path fresh []) (bytes "/dev" ∷ [])
    ≡ ok (path ∷ [])
unfolding pvheader_scan labelled same
scan_run = rw fresh-header refl

path-IsLabelled : IsLabelled codec modes (BTree.insert path fresh []) path
unfolding same
path-IsLabelled = (0x6000, refl, refl, (header, fresh-header))

pvheader_scan_sound_example :
    ((dir : Bytes) × (paths : List Bytes) × Memᴰ dir (bytes "/dev" ∷ [])
      × (dev_dir dir ≡ ok paths)
      × Memᴰ path paths)
    × IsLabelled codec modes (BTree.insert path fresh []) path
pvheader_scan_sound_example =
    pvheader_scan_sound codec modes (BTree.insert path fresh []) dev_dir (bytes "/dev" ∷ [])
      (path ∷ []) path scan_run (head refl)

pvheader_scan_complete_example : Memᴰ path (path ∷ [])
pvheader_scan_complete_example =
    pvheader_scan_complete codec modes (BTree.insert path fresh []) dev_dir (bytes "/dev" ∷ [])
      (path ∷ []) (bytes "/dev") (path ∷ bytes "/dev/tty" ∷ []) path scan_run (head refl) refl
      (head refl) path-IsLabelled
