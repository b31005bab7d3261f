-- ===== src/Tests.antt =====
-- Runs of the modelled code, and its theorems at concrete inputs.
pub mod Parsing
pub mod Devices
pub mod Printable
pub mod Groups
pub mod Created
pub mod Programs
pub mod Live
pub mod Failed
pub mod Disjoint
use melvin.Prelude.{
  ◌≤◌, ◌>>=◌, format_u64, parse_i64, ℕ, ◌<◌, ◌≡◌, ◌≢◌, refl, false, not, List, [], ◌∷◌, ◌++◌, none,
  some, arith, Bytes, bytes, pos, negsuc, two64, ok, err, panicked, out_of_fuel, unexpected_ident,
  format_i64, from_utf8_lossy, before, same, All, ltb, ◌&&◌, ◌==◌, Bool, true,
}
use melvin.BTree.{BTreeMap, insert, get}
use melvin.Types.{Pv, Lv, Vg, Segment, striped}
use melvin.Parser.TextMap.{Entry, Entries, TextMap, nil, cons, empty, bind}
use melvin.Parser.TextMap
use melvin.Tests.Parsing.{sample}
use melvin.Pv
use melvin.Pv.RoundTrip.{FitsU64, pv_round_trip, dev_from_textmap-string}
use melvin.Lv
use melvin.Lv.Segments
use melvin.Lv.Reload.{reload, IsStorable, segment_reload}
use melvin.Lv.RoundTrip.{reload_all, lv_round_trip}
use melvin.Vg.{Areas, add_area, nat_ord, find_contig, free_areas, used_areas}
use mathlib.Core.List.Memᴰ.{head, tail}
use melvin.Vg.Text
use melvin.Util.{hyphenate_uuid, without_hyphens}
use melvin.Util.Hyphens.{without_hyphens-hyphenate_uuid}
use melvin.Vg.Search.{IsArea, find_contig-fits, find_contig-none}
use melvin.Vg.Gaps.{covers}
use melvin.Vg.Free.{free_areas-complement, free_areas-full, free_areas-unused}
use melvin.Parser.Token.{Token}
use melvin.Parser.Lexer.{tokenize, collect, next, next_in, round, read_byte, put_back}
use melvin.Parser.Lexer.Automaton.{between, run, open_token}
use melvin.Parser.Lexer.Refines.{tokenize-run}
use melvin.Parser.Reader.{
  buf_to_textmap, read_tokens, find_matching_token, matching, get_list, list_items, get_textmap,
}
use melvin.Parser.Reader.Fuel.{buf_to_textmap-ne-out_of_fuel}
use melvin.Parser.Printer.{textmap_to_buf}
use melvin.Parser.Printable.{IsPrintable, bytes_onto}
use melvin.Parser.RoundTrip.{buf_to_textmap-textmap_to_buf}
use melvin.Parser.Malformed.{unclosed_section-panics, digit_name-refused}

abbrev volume : Pv ℕ
volume = record {
  id = bytes "Nk2x";
  device = 2049;
  status = bytes "ALLOCATABLE" ∷ [];
  flags = [];
  dev_size = 20480;
  pe_start = 2048;
  pe_count = 10;
}

-- Extents `first` to `first + count` of the volume.
abbrev segment_at : ℕ → ℕ → Segment ℕ
segment_at first count = striped (record {
  start_extent = 0;
  extent_count = count;
  stripe_size = none;
  stripes = (2049, first) ∷ [];
})

abbrev volume_with : List (Segment ℕ) → Lv ℕ
volume_with segments = record {
  name = bytes "home";
  id = bytes "q7Yp";
  status = bytes "READ" ∷ bytes "WRITE" ∷ [];
  flags = [];
  creation_host = bytes "host";
  creation_time = pos 1420;
  segments = segments;
  device = some 64768;
}

abbrev group_with : BTreeMap Bytes (Lv ℕ) → Vg ℕ
group_with lvs = record {
  name = bytes "vg0";
  id = bytes "aB3d";
  seqno = 4;
  format = bytes "lvm2";
  status = bytes "READ" ∷ [];
  flags = [];
  extent_size = 8192;
  max_lv = 0;
  max_pv = 0;
  metadata_copies = 0;
  pvs = (2049, volume) ∷ [];
  lvs = lvs;
}

volume-FitsU64 : FitsU64 (λ d. d) volume
volume-FitsU64 = record {
  device = omega arith;
  dev_size = omega arith;
  pe_start = omega arith;
  pe_count = omega arith;
}

pv_round_trip_example : Pv.from_textmap (λ d. d) (Pv.to_textmap (λ d. d) volume) ≡ ok volume
pv_round_trip_example = pv_round_trip (λ d. d) (λ d. d) (λ d. refl) volume volume-FitsU64

dev_from_textmap-string_example :
    Pv.dev_from_textmap
      (λ d. d)
      (TextMap.insert (bytes "device") (Entry.string (format_i64 (pos 2049))) sample)
    ≡ Pv.dev_from_textmap
        (λ d. d)
        (TextMap.insert (bytes "device") (Entry.number (pos 2049)) sample)
dev_from_textmap-string_example = dev_from_textmap-string (λ d. d) sample (pos 2049) (omega arith)

abbrev indices : BTreeMap ℕ ℕ
indices = (2049, 0) ∷ []

abbrev names : BTreeMap Bytes (Pv ℕ)
names = (bytes "pv0", volume) ∷ []

segment_at-IsStorable :
    (first count : ℕ)
    → first < two64
    → count < two64
    → IsStorable indices names (segment_at first count)
unfolding get same format_u64
segment_at-IsStorable first count h k = (omega arith, k, (h, (0, volume, refl, refl, refl), tt))

segment_reload_example :
    (map : TextMap) × (Segments.to_textmap (segment_at 2 3) indices ≡ ok map)
    × (Segments.from_textmap map names ≡ ok (reload (segment_at 2 3)))
segment_reload_example =
    segment_reload indices names (segment_at 2 3)
      (segment_at-IsStorable 2 3 (omega arith) (omega arith))

abbrev two_segments : Lv ℕ
two_segments = volume_with (segment_at 2 3 ∷ segment_at 7 1 ∷ [])

lv_round_trip_example :
    (map : TextMap) × (Lv.to_textmap two_segments indices ≡ ok map)
    × (Lv.from_textmap (bytes "home") map names
        ≡ ok (record two_segments { segments = reload_all two_segments.segments; device = none }))
lv_round_trip_example =
    lv_round_trip indices names two_segments
      (
        segment_at-IsStorable 2 3 (omega arith) (omega arith),
        (segment_at-IsStorable 7 1 (omega arith) (omega arith), tt),
      )
      (omega arith)

abbrev partly_used : Vg ℕ
partly_used = group_with ((bytes "home", two_segments) ∷ [])

abbrev full : Vg ℕ
full = group_with ((bytes "home", volume_with (segment_at 0 10 ∷ [])) ∷ [])

abbrev empty_group : Vg ℕ
empty_group = group_with []

free_areas-complement_example :
    (fm : BTreeMap ℕ Areas) × (free : Areas) × (free_areas partly_used ≡ ok fm)
    × (get 2049 fm ≡ some free)
    × (covers free 6 ≡ not (covers ((2, 3) ∷ (7, 1) ∷ []) 6))
unfolding used_areas get Lv.used_areas Segments.used_areas add_area insert
free_areas-complement_example =
    free_areas-complement partly_used 2049 volume ((2, 3) ∷ (7, 1) ∷ []) 0 6 ((volume, refl), tt)
      refl refl (omega arith, omega arith, (omega arith, omega arith, omega arith)) (omega arith)
      (omega arith) refl (omega arith)

free_areas-full_example :
    (fm : BTreeMap ℕ Areas) × (free_areas full ≡ ok fm) × (get 2049 fm ≡ some ((0, 10) ∷ []))
unfolding used_areas get Lv.used_areas Segments.used_areas add_area insert
free_areas-full_example =
    free_areas-full full 2049 volume ((0, 10) ∷ []) ((volume, refl), tt) refl refl
      (omega arith, omega arith, omega arith) (omega arith) (λ e h. ground arith)

free_areas-unused_example :
    (fm : BTreeMap ℕ Areas) × (free_areas empty_group ≡ ok fm) × (get 2049 fm ≡ some ((0, 10) ∷ []))
unfolding used_areas get Lv.used_areas Segments.used_areas add_area insert
free_areas-unused_example = free_areas-unused empty_group 2049 volume tt refl refl

-- A group is written and read again; the limits are lost, and a device that is set up is found.
group_run :
    (Text.to_textmap (λ d. d) partly_used
      >>= Text.from_textmap (λ d. d) (ok ((bytes "home", 64768) ∷ [])) (bytes "vg0"))
    ≡ ok (
        group_with (
          (bytes "home", record two_segments { segments = reload_all two_segments.segments }) ∷ []))
unfolding Text.to_textmap Text.from_textmap get Text.dev_to_idx melvin.BTree.collect insert
    Lv.to_textmap Segments.to_textmap Segments.store_stripes TextMap.get TextMap.insert before same
    TextMap.status_from_textmap Pv.from_textmap Pv.to_textmap Lv.from_textmap format_u64
    melvin.Prelude.as_i64 Segments.from_textmap Segments.load_stripes Segments.striped_from_textmap
    Segments.striped_to_textmap Lv.load_segments Lv.store_segments TextMap.entries_of
    TextMap.strings_of melvin.Prelude.as_u64 from_utf8_lossy Pv.dev_from_textmap
group_run = refl

abbrev pub digits : Bytes
digits = bytes "0123456789abcdef0123456789abcdef"

abbrev all_plain : Bytes → Bool
all_plain [] = true
all_plain (b ∷ bs) = ltb b 128 && (not (b == b'-') && all_plain bs)

pub plain_bytes :
    (bs : Bytes) → all_plain bs ≡ true → All (λ b. b < 128) bs × All (λ b. b ≢ b'-') bs
plain_bytes [] h = (tt, tt)
plain_bytes (b ∷ bs) h =
    let rest : all_plain bs ≡ true = ground arith in
    let (ascii, plain) = plain_bytes bs rest in ((ground arith, ascii), (ground arith, plain))

without_hyphens-hyphenate_uuid_example :
    (t : Bytes) × (hyphenate_uuid digits ≡ ok t) × (without_hyphens t ≡ digits)
without_hyphens-hyphenate_uuid_example =
    without_hyphens-hyphenate_uuid digits (plain_bytes digits refl).0 (plain_bytes digits refl).1
      refl
