-- ===== src/Tests/Live.antt =====
-- A linear volume on a concrete device, and what follows from the theorem on it.
use melvin.Prelude.{
  ℕ, ◌≤◌, ◌≡◌, refl, sym, ap, ◌∙◌, true, [], ◌∷◌, none, some, Bytes, bytes, length, leb, leb→le,
  same, before, inl, arith, ok, Result, as_i64, format_u64, format_i64, from_utf8_lossy,
}
use mathlib.Core.Path.{subst}
use mathlib.Core.List.Memᴰ.{head}
use melvin.BTree
use melvin.BTree.{BTreeMap, bytes_ord, insert, get, collect, contains_key}
use melvin.Types.{Vg}
use melvin.Disk.{Devices}
use melvin.Util.{hyphenate_uuid}
use melvin.Parser.TextMap
use melvin.Parser.TextMap.{TextMap, empty}
use melvin.Parser.Printer.{textmap_to_buf}
use melvin.Parser.Printable.{IsPrintable}
use melvin.Lv
use melvin.Lv.Segments
use melvin.Pv
use melvin.Vg.{
  Areas, nat_ord, free_areas, used_areas, find_contig, first_fit, around_used, add_unused, add_area,
  fold_areas,
}
use melvin.Vg.Search.{IsArea}
use melvin.Vg.Text
use melvin.Vg.Commit.{disk_map}
use melvin.Vg.Commit.RoundTrip.{AreWritten}
use melvin.Vg.Commit.Again.{CanCommit}
use melvin.Vg.Consistent.{IsConsistent}
use melvin.Vg.Logical.{lv_create_linear}
use melvin.Vg.Reached.{IsConsistent-Reached}
use melvin.Vg.Live.{with_linear, lv_create_linear-ok}
use melvin.Tests.Devices.{codec-IsLittleEndian, path}
use melvin.Tests.Groups.{uuid, one_volume, group}
use melvin.Tests.Printable.{is_printable-IsPrintable}
use melvin.Tests.Created.{fresh, host_with_device, one_target, fresh-AreTargets, group-Reached}

abbrev free : BTreeMap ℕ Areas
free = (2049, (0, 14) ∷ []) ∷ []

group-free : free_areas group ≡ ok free
unfolding free_areas used_areas around_used add_unused insert contains_key get add_area fold_areas
group-free = refl

abbrev linear : ℕ → ℕ → Vg ℕ
linear dev start = with_linear host_with_device (bytes "root") uuid 3 dev start group

abbrev map_or_empty : Result TextMap → TextMap
map_or_empty (ok map) = map
map_or_empty _ = empty

abbrev root_map : TextMap
root_map = map_or_empty (Text.to_textmap (λ n. n) (linear 2049 0))

linear-root_map : Text.to_textmap (λ n. n) (linear 2049 0) ≡ ok root_map
unfolding Text.to_textmap insert get Text.dev_to_idx collect TextMap.insert format_u64 as_i64 before
    same Pv.to_textmap Text.numbered Text.store_pvs Text.store_lvs Text.vg_header Text.with_lvs
    TextMap.entries_of Lv.to_textmap Lv.store_segments Segments.to_textmap
    Segments.striped_to_textmap Segments.store_stripes
linear-root_map = refl

root_map-IsPrintable : IsPrintable (disk_map host_with_device (bytes "vg0") root_map)
unfolding Text.to_textmap insert get Text.dev_to_idx collect TextMap.insert format_u64 as_i64 before
    same Pv.to_textmap Text.numbered Text.store_pvs Text.store_lvs Text.vg_header Text.with_lvs
    TextMap.entries_of Lv.to_textmap Lv.store_segments Segments.to_textmap
    Segments.striped_to_textmap Segments.store_stripes
root_map-IsPrintable =
    is_printable-IsPrintable (disk_map host_with_device (bytes "vg0") root_map) refl

abbrev size_of : Result Bytes → ℕ
size_of (ok text) = length text
size_of _ = 0

root_text-short :
    leb (size_of (textmap_to_buf (disk_map host_with_device (bytes "vg0") root_map))) 4096 ≡ true
unfolding Text.to_textmap insert get Text.dev_to_idx collect TextMap.insert format_u64 as_i64 before
    same Pv.to_textmap Text.numbered Text.store_pvs Text.store_lvs Text.vg_header Text.with_lvs
    TextMap.entries_of Lv.to_textmap Lv.store_segments Segments.to_textmap
    Segments.striped_to_textmap Segments.store_stripes textmap_to_buf format_i64
root_text-short = refl

root_map-short :
    (text : Bytes)
    → textmap_to_buf (disk_map host_with_device (bytes "vg0") root_map) ≡ ok text
    → length text ≤ 4096
root_map-short text printed =
    let sized = ap size_of printed in
    leb→le (length text) 4096 (ap (λ n. leb n 4096) (sym sized) ∙ root_text-short)

-- The search finds the one free area.
found-linear :
    (dev start len : ℕ) (map : TextMap)
    → find_contig 3 free none ≡ some (dev, start, len)
    → Text.to_textmap (λ n. n) (linear dev start) ≡ ok map
    → root_map ≡ map
unfolding find_contig first_fit
found-linear dev start len map found mapped =
    let dev_at : 2049 ≡ dev = cc in
    let start_at : 0 ≡ start = cc in
    let mapped2 : Text.to_textmap (λ n. n) (linear 2049 0) ≡ ok map =
      rw (sym dev_at, sym start_at) at mapped in
    let same_maps = sym linear-root_map ∙ mapped2 in cc

device-CanCommit :
    CanCommit host_with_device 4096 (one_volume ∷ []) one_target (BTree.insert path fresh [])
device-CanCommit = record {
  large = ((omega arith, (omega arith, tt)), tt);
  behind = ((inl (omega arith), (inl (omega arith), tt)), tt);
  ready = fresh-AreTargets;
}

lv_create_linear-ok_example :
    (dev2 : ℕ) × (start2 len2 : ℕ) × (map : TextMap) × (devices2 : Devices) × (3 ≤ len2)
    × IsArea free dev2 start2 len2
    × (lv_create_linear host_with_device (bytes "root") 3 group (BTree.insert path fresh [])
        ≡ ok (linear dev2 start2, devices2))
    × (Text.to_textmap (λ n. n) (linear dev2 start2) ≡ ok map)
    × AreWritten host_with_device (disk_map host_with_device (bytes "vg0") map) one_target devices2
    × IsConsistent (linear dev2 start2)
    × CanCommit host_with_device 4096 (one_volume ∷ []) one_target devices2
unfolding hyphenate_uuid from_utf8_lossy contains_key
lv_create_linear-ok_example =
    lv_create_linear-ok host_with_device (bytes "root") uuid (bytes "vg0-root") 3 4096 group free
      2049 0 14 one_target (BTree.insert path fresh []) codec-IsLittleEndian
      (IsConsistent-Reached group group-Reached) refl group-free
      ((0, 14) ∷ [], head refl, head refl) (omega arith) refl refl refl (λ table. refl)
      device-CanCommit
      (λ dev start len map found mapped.
        subst (λ m. IsPrintable (disk_map host_with_device (bytes "vg0") m))
          (found-linear dev start len map found mapped) root_map-IsPrintable)
      (λ dev start len map text found mapped printed. root_map-short text (
        ap (λ m. textmap_to_buf (disk_map host_with_device (bytes "vg0") m))
          (found-linear dev start len map found mapped)
        ∙ printed))
