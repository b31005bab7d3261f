-- ===== src/Tests/Programs.antt =====
-- Theorems on groups that are read again and on the program of src/main.rs, at concrete inputs.
use melvin.Prelude.{
  panicked, parse_u32, split_whitespace, ◌/◌, ◌%◌, ℕ, ◌≡◌, refl, List, [], ◌∷◌, none, some, bytes,
  same, arith, ok, err, pos, io_failed, true, pv_in_named_vg, from_utf8_lossy, parse_i64,
}
use melvin.BTree
use melvin.BTree.{bytes_ord, get}
use melvin.Types.{Vg, striped}
use melvin.Disk.{Devices}
use melvin.Util.{align_to, hyphenate_uuid}
use melvin.Parser.Token.{Token, as_ref}
use melvin.Parser.Lexer.{tokenize, collect, next, next_in, read_byte, round, put_back}
use melvin.Parser.Reader.{buf_to_textmap, get_textmap, find_matching_token}
use melvin.Parser.TextMap.{TextMap, Entry, bind, empty, insert}
use melvin.Lv.{same_lv}
use melvin.PvLabel.Mda.Devices.{open_file-insert}
use melvin.Vg.{nat_ord}
use melvin.Vg.Text
use melvin.Vg.Text.{set_devices}
use melvin.Vg.Physical.{create, pv_add, volume_of}
use melvin.Vg.Logical.{new_lv, linear_segment}
use melvin.Vg.RoundTrip.{VgFits, vg_round_trip}
use melvin.Vg.Reached.{IsConsistent-Reached}
use melvin.Vg.Refused.{create_refused}
use melvin.Pv.Path
use melvin.Pv.Path.Named.{Partition, lines_of, path-lines_of}
use melvin.Program.{pvheader, hdr, name_map, main, get_conf}
use melvin.Program.Created.{main-create}
use melvin.Tests.{digits}
use melvin.Tests.Devices.{codec-IsLittleEndian, path}
use melvin.Tests.Groups.{host, uuid, header, one_volume, group, with_root}
use melvin.Tests.Created.{
  fresh, group_map, group_text, host_with_device, unformatted, path_of-one_volume, dev_dir, modes,
  group-group_map, frame-IsPrintable, frame-group_text, fresh-unlabelled, with_root-Reached,
}

with_root-VgFits : VgFits (λ n. n) with_root
with_root-VgFits = record {
  seqno = omega arith;
  extent_size = omega arith;
  metadata_copies = omega arith;
  pvs = (
    record {
      device = omega arith;
      dev_size = omega arith;
      pe_start = omega arith;
      pe_count = omega arith;
    },
    tt,
  );
  lvs = (refl, omega arith, ((omega arith, omega arith, (omega arith, tt)), tt), tt);
}

-- The volume was linear with no stripe size; its first extent is read as one.
vg_round_trip_example :
    (map : TextMap) × (Text.to_textmap (λ n. n) with_root ≡ ok map)
    × (Text.from_textmap (λ n. n) (ok ((bytes "root", 64768) ∷ [])) (bytes "vg0") map
        ≡ ok (record with_root {
          lvs = set_devices ((bytes "root", 64768) ∷ []) (
              (
                bytes "root",
                record (new_lv host (bytes "root") uuid (linear_segment 2049 0 3)) {
                  segments =
                      striped (record {
                        start_extent = 0;
                        extent_count = 3;
                        stripe_size = some 0;
                        stripes = (2049, 0) ∷ [];
                      })
                      ∷ [];
                },
              )
              ∷ []);
        }))
vg_round_trip_example =
    vg_round_trip (λ n. n) (λ n. n) (λ d. refl) ((bytes "root", 64768) ∷ []) with_root
      (IsConsistent-Reached with_root with_root-Reached) with_root-VgFits

create_refused_example :
    (vg : Vg ℕ) × (devices2 : Devices) × (create host_with_device
        (bytes "vg0")
        (path ∷ [])
        (BTree.insert path fresh [])
      ≡ ok (vg, devices2))
    × (pv_add host_with_device path with_root devices2 ≡ err pv_in_named_vg)
    × (create host_with_device (bytes "vg1") (path ∷ []) devices2 ≡ err pv_in_named_vg)
unfolding hyphenate_uuid volume_of align_to from_utf8_lossy
create_refused_example =
    create_refused host_with_device (bytes "vg0") path digits uuid uuid 2049 unformatted
      (BTree.insert path fresh []) group_map group_text (bytes "vg1") with_root codec-IsLittleEndian
      (open_file-insert path fresh []) refl refl refl (omega arith) (omega arith) fresh-unlabelled
      refl path_of-one_volume group-group_map frame-IsPrintable frame-group_text (omega arith)

main-create_example :
    (devices2 : Devices) × (create host_with_device
        (bytes "vg0")
        (path ∷ [])
        (BTree.insert path fresh [])
      ≡ ok (group, devices2))
    × (main host_with_device.crates devices2 dev_dir modes
        ≡ (pvheader path ∷ hdr header ∷ name_map (bytes "vg0") group_map ∷ [], ok tt))
    × (Text.from_textmap (λ n. n) (ok []) (bytes "vg0") group_map ≡ ok group)
unfolding hyphenate_uuid volume_of align_to from_utf8_lossy same
main-create_example =
    main-create host_with_device (bytes "vg0") path digits uuid uuid 2049 unformatted
      (BTree.insert path fresh []) group_map group_text dev_dir modes [] (bytes "/dev/tty" ∷ [])
      0x6000 [] codec-IsLittleEndian (open_file-insert path fresh []) refl refl refl (omega arith)
      (omega arith) fresh-unlabelled refl path_of-one_volume group-group_map frame-IsPrintable
      frame-group_text (omega arith) refl tt ((0x2000, refl, refl), tt) refl refl (λ e. refl)
      (omega arith)

abbrev partitions : List Partition
partitions =
    record {
      major = 8;
      minor = 0;
      blocks = 1048576;
      initial = b's';
      rest = bytes "da";
      pad_major = 3;
      pad_minor = 8;
      pad_blocks = 4;
    }
    ∷ record {
      major = 8;
      minor = 1;
      blocks = 65536;
      initial = b's';
      rest = bytes "da1";
      pad_major = 3;
      pad_minor = 8;
      pad_blocks = 6;
    }
    ∷ []

-- The device 2049 is 8:1.
path-lines_of_example :
    Path.path
      (λ d. d / 256)
      (λ d. d % 256)
      (some (some (bytes "major minor  #blocks  name") ∷ some [] ∷ lines_of partitions))
      one_volume
    ≡ ok (some (bytes "/dev/sda1"))
path-lines_of_example =
    path-lines_of (λ d. d / 256) (λ d. d % 256) (some (bytes "major minor  #blocks  name"))
      (some []) partitions one_volume
      (
        omega arith,
        omega arith,
        (
          (omega arith, omega arith),
          ((omega arith, omega arith), ((omega arith, omega arith), tt)),
        ),
        (
          omega arith,
          omega arith,
          (
            (omega arith, omega arith),
            (
              (omega arith, omega arith),
              ((omega arith, omega arith), ((omega arith, omega arith), tt)),
            ),
          ),
          tt,
        ),
      )

path_runs :
    (Path.path
        (λ d. d / 256)
        (λ d. d % 256)
        (some (none ∷ none ∷ some (bytes "   8        1      65536 sda1") ∷ []))
        one_volume
      ≡ ok (some (bytes "/dev/sda1")))
    × (Path.path (λ d. d / 256) (λ d. d % 256) (some (none ∷ none ∷ some [] ∷ [])) one_volume
        ≡ panicked)
    × (Path.path (λ d. d / 256) (λ d. d % 256) none one_volume ≡ panicked)
    × (Path.path (λ d. d / 256) (λ d. d % 256) (some []) one_volume ≡ ok none)
unfolding Path.path parse_u32 split_whitespace
path_runs = (refl, refl, refl, refl)

conf_runs :
    (get_conf (λ file. ok (bytes "global {\nlocking_type = 1\n}\n"))
      ≡ ok (
          bind
            (bytes "global")
            (Entry.text_map (bind (bytes "locking_type") (Entry.number (pos 1)) empty))
            empty))
    × (get_conf (λ file. err io_failed) ≡ err io_failed)
unfolding get_conf buf_to_textmap tokenize collect next next_in read_byte round put_back parse_i64
    from_utf8_lossy get_textmap find_matching_token insert
conf_runs = (refl, refl)

same_lv_run :
    same_lv
      (new_lv host (bytes "root") uuid (linear_segment 2049 0 3))
      (new_lv host (bytes "root") [] (linear_segment 2049 4 1))
    ≡ true
unfolding same
same_lv_run = refl

as_ref_runs : (as_ref Token.comma ≡ ok (bytes ",")) × (as_ref (Token.ident (bytes "id")) ≡ panicked)
unfolding as_ref
as_ref_runs = (refl, refl)
