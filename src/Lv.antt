-- ===== src/Lv.antt =====
-- src/lv.rs: logical volumes, and their text maps.
pub mod Segments
pub mod Reload
pub mod RoundTrip
use melvin.Prelude.{
  Bool, ℕ, zero, suc, ◌+◌, ◌%◌, ℤ, pos, negsuc, List, [], ◌∷◌, ◌++◌, Option, none, some, Bytes,
  bytes, same, length, as_i64, two64, format_u64, Result, ok, err, panicked, out_of_fuel, ◌>>=◌,
  ok_or, lv_parsing,
}
use melvin.BTree.{Ord, BTreeMap, bytes_ord}
use melvin.Types.{Pv, Lv, Segment}
use melvin.Parser.TextMap.{
  Entry, TextMap, empty, insert, i64_from_textmap, string_from_textmap, list_from_textmap,
  textmap_from_textmap, strings_of, entries_of, status_from_textmap,
}
use Segments
use Segments.{sum_u64}

-- `PartialEq for LV`: volumes of one name are equal.
abbrev pub same_lv : {D : Type 0} → Lv D → Lv D → Bool
same_lv a b = same a.name b.name

module _ {D : Type 0} where
  extent_counts : List (Segment D) → List ℕ
  extent_counts [] = []
  extent_counts (s ∷ ss) = Segments.extent_count s ∷ extent_counts ss

  -- The number of extents of a volume, in `u64`.
  unfoldable pub used_extents : Lv D → ℕ
  unfolding extent_counts
  used_extents lv = sum_u64 (extent_counts lv.segments)

  abbrev pub areas_of : List (Segment D) → List (D × ℕ × ℕ)
  areas_of [] = []
  areas_of (s ∷ ss) = Segments.used_areas s ++ areas_of ss

  unfoldable pub used_areas : Lv D → List (D × ℕ × ℕ)
  used_areas lv = areas_of lv.segments

-- `format!("segment{}", n)`
abbrev pub segment_name : ℕ → Bytes
segment_name n = bytes "segment" ++ format_u64 n

-- The number of rounds of `0..n` for an `i64`.
abbrev pub range_length : ℤ → ℕ
range_length (pos n) = n
range_length (negsuc n) = 0

module _ {D : Type 0} where
  -- `filter_map(|seg| seg.ok())`: a segment that is refused is dropped, a panic is not.
  abbrev pub keep_ok : Result (Segment D) → Result (List (Segment D)) → Result (List (Segment D))
  keep_ok (ok s) rest = rest >>= λ ss. ok (s ∷ ss)
  keep_ok (err e) rest = rest
  keep_ok panicked rest = panicked
  keep_ok out_of_fuel rest = out_of_fuel

  -- The segments `num + 1` and the `n - 1` behind it.
  unfoldable pub load_segments : TextMap → BTreeMap Bytes (Pv D) → ℕ → ℕ → Result (List (Segment D))
  load_segments map pvs zero num = ok []
  load_segments map pvs (suc n) num =
      let rest = load_segments map pvs n (num + 1) in
      elim (textmap_from_textmap map (segment_name (num + 1))) [
        | none ↦ rest
        | some seg_dict ↦ keep_ok (Segments.from_textmap seg_dict pvs) rest
      ]

  unfoldable pub from_textmap : Bytes → TextMap → BTreeMap Bytes (Pv D) → Result (Lv D)
  unfolding load_segments
  from_textmap name map pvs = do
    id ← ok_or (string_from_textmap map (bytes "id")) lv_parsing
    creation_host ← ok_or (string_from_textmap map (bytes "creation_host")) lv_parsing
    creation_time ← ok_or (i64_from_textmap map (bytes "creation_time")) lv_parsing
    segment_count ← ok_or (i64_from_textmap map (bytes "segment_count")) lv_parsing
    segments ← load_segments map pvs (range_length segment_count) 0
    status ← status_from_textmap map
    flags ← ok_or (list_from_textmap map (bytes "flags")) lv_parsing
    ok (record {
      name = name;
      id = id;
      status = status;
      flags = strings_of flags;
      creation_host = creation_host;
      creation_time = creation_time;
      segments = segments;
      device = none;
    })

module _ {D : Type 0} where
  -- The entries before the segments.
  abbrev pub lv_header : Lv D → TextMap
  lv_header lv =
      let m1 = insert (bytes "id") (Entry.string lv.id) empty in
      let m2 = insert (bytes "status") (Entry.list (entries_of lv.status)) m1 in
      let m3 = insert (bytes "flags") (Entry.list (entries_of lv.flags)) m2 in
      let m4 = insert (bytes "creation_host") (Entry.string lv.creation_host) m3 in
      let m5 = insert (bytes "creation_time") (Entry.number lv.creation_time) m4 in
      insert (bytes "segment_count") (Entry.number (as_i64 (length lv.segments))) m5

module _ {D : Type 0} ⦃o : Ord D⦄ where
  unfoldable pub store_segments : List (Segment D) → ℕ → BTreeMap D ℕ → TextMap → Result TextMap
  store_segments [] i dev_to_idx map = ok map
  store_segments (seg ∷ segs) i dev_to_idx map = do
    t ← Segments.to_textmap seg dev_to_idx
    store_segments segs (i + 1) dev_to_idx (insert (segment_name (i + 1)) (Entry.text_map t) map)

  unfoldable pub to_textmap : Lv D → BTreeMap D ℕ → Result TextMap
  unfolding store_segments
  to_textmap lv dev_to_idx = store_segments lv.segments 0 dev_to_idx (lv_header lv)
