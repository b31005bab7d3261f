-- ===== src/Lib.antt =====
-- melvin: a library that configures logical volumes on LVM2's on-disk format, without the LVM tools.
--
-- The metadata of a volume group is a text (src/parser.rs): keys with numbers, strings, flat lists
-- and nested sections. `buf_to_textmap` reads it into a text map, the structures for physical
-- volumes (src/pv.rs), logical volumes and their segments (src/lv.rs) are made from text maps and
-- written to text maps again, and `textmap_to_buf` prints what goes to disk. A volume group
-- (src/vg.rs) works out from its logical volumes which extents of its physical volumes are free; its
-- operations change it and commit it, which writes the text to the metadata areas of its devices
-- (src/pvlabel.rs). The program (src/main.rs) looks for labelled devices and prints the metadata of
-- the first group that it finds.
--
-- Files and the code that they model:
--   Prelude/*              what the modules share: Boolean tests, lists by native numbers, `i64` and
--                          `u64` with their casts, bytes and their order, the outcomes of a fallible
--                          call, `String::from_utf8_lossy`, `parse::<i64>` and `parse::<u32>`,
--                          decimal printing, `split_whitespace`, and calls that change a state and
--                          may fail (Prelude/Act).
--   BTree, BTree/Laws, Collect
--                          `BTreeMap` as a list of bindings in the order of the keys.
--   Parser/Token, Lexer    `Token`, `Lexer` and its iterator, with the cursor, the byte put back and
--                          the flag `next_is_ident`.
--   Parser/Lexer/Automaton the tokens of a buffer with no cursor; Parser/Lexer/Refines and its
--                          children compare the two.
--   Parser/TextMap         `Entry`, `LvmTextMap`, `TextMapOps`, `status_from_textmap`.
--   Parser/Reader          `find_matching_token`, `get_list`, `get_textmap`, `buf_to_textmap`;
--                          Parser/Reader/Fuel on their termination.
--   Parser/Printer         `textmap_to_buf`.
--   Parser/Printable, RoundTrip, Malformed
--                          the maps that the format can express, reading back what was printed, and
--                          inputs that the printer does not write.
--   Types                  `PV`, `LV`, `VG` and the segments.
--   Lv, Lv/Segments        src/lv.rs: text maps both ways, extents and areas; Lv/Reload and
--                          Lv/RoundTrip on writing and reading again.
--   Pv, Pv/RoundTrip       src/pv.rs: text maps both ways.
--   Pv/Path, Pv/Path/Named `PV::path` on the lines of /proc/partitions.
--   Vg, Vg/Gaps, Around, Free, Used, Search, Disjoint
--                          src/vg.rs: used and free areas, extent counts, lookups, the search of
--                          `lv_create_linear`, and where it puts a volume beside others.
--   Vg/Text                `VG::from_textmap` and `to_textmap`; what the device mapper lists is a
--                          parameter. Vg/RoundTrip and its children on writing and reading again.
--   Vg/System              what the operations of a group get from outside, as a record: the crates,
--                          the clock, the host's name, paths, the answers of the device mapper.
--   Vg/Commit, Physical, Logical
--                          `commit`; `create`, `pv_add`, `pv_remove`; `lv_create_linear`,
--                          `lv_create_thinpool`, `lv_remove`.
--   Vg/Acts, Vg/Commands   the same operations with the group and the devices as a failing call
--                          leaves them, and how the two agree; Vg/Acts/Lost on what every
--                          outcome of `lv_remove` leaves.
--   Vg/Consistent, Total, Written, Preserved, Vg/Acts/Kept, Reached
--                          the invariant of a group, what follows from it for `free_areas` and
--                          `to_textmap`, that operations keep it, and the groups that they make.
--   Vg/Commit/RoundTrip, Headers, Again, Vg/Create, Refused, Extents, Linear, Live
--                          commits and `create` read back, what a commit leaves alone, commits one
--                          after the other, devices that are in a group, the extents of an added
--                          volume, and linear volumes.
--   Vg/Params, Vg/Params/Located
--                          `dm_params` of src/lv.rs, and where a segment is placed.
--   Util, Util/Hyphens, Util/Align
--                          src/util.rs: `align_to`, `crc32_calc`, `hyphenate_uuid` and `make_uuid`.
--   Crates                 the crates byteorder and crc, as a record of functions.
--   Disk, Disk/Laws, Acts  devices, and the calls of `File` on them.
--   PvLabel                src/pvlabel.rs: labels; PvLabel/Areas: `PvArea`, `RawLocn` and the
--                          iterators over them; PvLabel/Header: `PvHeader`, `initialize`,
--                          `find_in_dev` and `pvheader_scan`; PvLabel/Mda: headers of metadata
--                          areas; PvLabel/Mda/Text: `read_metadata` and `write_metadata`.
--   PvLabel/Iter, Fresh, Found, RoundTrip, FirstWrite, Fuel, Scan
--                          the iterators over a store, a sector that was just initialized and
--                          finding it, the first metadata, termination, and scanning directories.
--   PvLabel/Mda/RoundTrip, Stored, Metadata, Copies, Devices, Again
--                          headers and texts of metadata areas, written and read again.
--   PvLabel/Acts, PvLabel/Mda/Acts
--                          `initialize` and `write_metadata` with the device as a failing call
--                          leaves it.
--   Program, Program/Created
--                          src/main.rs; what is printed is a list of lines.
--   Tests/*                runs at concrete inputs.
--
-- How the code is translated. A `&mut self` is a record that is passed on; `Err`, a panic (`unwrap`,
-- an assertion, an index past the end, `unimplemented!`) and a value are the outcomes of `Result`. A
-- slice of tokens is a list, and a `String` the list of its bytes. `u64` and `i64` are native
-- numbers with their wrap-around and casts written out. `Device` of the devicemapper crate is a type
-- parameter `D` with an order where it is a key, and its conversions from and to `u64` are
-- parameters, of which the round trip of a physical volume uses that the one undoes the other.
--
-- Fuel. A call of the lexer's `next` takes one unit more than there are bytes, and the iterator one
-- more than there are bytes, since every token takes a byte; `get_textmap` takes one more than there
-- are tokens, since every round of its loop and every nested call takes a token; the iterator over
-- areas one more than there are bytes, since an area takes sixteen. Running out is an outcome of its
-- own in the model, which the program does not have.
--
-- Devices. A device has a fixed size and a byte at each position; a read stops at its end, and a
-- write past its end is an error. The functions that return a `Result` return no device and no
-- group when they fail; those named `_act` also return what the failing call left, where a write
-- past the end has written the bytes up to the end (Disk/Acts). A device fails in no other way.
-- `byteorder` is assumed to be little-endian where a theorem says so, and of the checksum of the
-- crc crate nothing is assumed.
--
-- Not modelled: src/lib.rs, which declares the modules, `blkdev_size`, an ioctl that is a parameter,
-- and the text that `println!` makes of a value. The operations take what `PV::path` returns as a field
-- of the system, since /proc/partitions may change between two calls.
pub mod Prelude
pub mod Parser
pub mod BTree
pub mod Types
pub mod Lv
pub mod Pv
pub mod Vg
pub mod Program
pub mod Crates
pub mod Disk
pub mod Util
pub mod PvLabel
pub mod Tests
