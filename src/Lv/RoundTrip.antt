-- ===== src/Lv/RoundTrip.antt =====
-- A logical volume of src/lv.rs, written to a text map and read again.
use melvin.Prelude.{
  ℕ, suc, ◌+◌, ◌<◌, ◌≤◌, ◌≡◌, refl, ap, ◌∙◌, false, List, [], ◌∷◌, none, some, Bytes, bytes, same,
  same_iff, same_refl, before, length, two63, as_i64, format_u64_cons, format_u64-injective, drop,
  Bool-cases, inl, inr, arith, ok,
}
use melvin.BTree.{Ord, BTreeMap}
use melvin.Types.{Pv, Lv, Segment}
use melvin.Parser.TextMap.{Entry, TextMap, insert, get, entries_of, status_from_textmap}
use melvin.Parser.TextMap.Laws.{get-insert, strings_of-entries_of}
use melvin.Lv.Segments
use melvin.Lv.Reload.{reload, IsStorable, segment_reload}
use melvin.Lv
use melvin.Lv.{segment_name, range_length, load_segments, store_segments, lv_header}

-- No segment has the key `k`.
abbrev IsHeaderKey : Bytes → Type 0
IsHeaderKey k = (n : ℕ) → same k (segment_name n) ≡ false

segment_name_ne : (m n : ℕ) → m < n → same (segment_name m) (segment_name n) ≡ false
segment_name_ne m n h = elim (Bool-cases (same (segment_name m) (segment_name n))) [
  | inl equal ↦
      let names : segment_name m ≡ segment_name n =
        (same_iff (segment_name m) (segment_name n)).0 equal in
      absurd (omega (arith, format_u64-injective m n (ap (drop 7) names)))
  | inr other ↦ other
]

segment_count_key : IsHeaderKey (bytes "segment_count")
unfolding same
segment_count_key n = let (c, cs, e, digit, _, _) = format_u64_cons n in rw e (ground arith)

found_segment :
    {D : Type 0} (map t : TextMap) (pvs : BTreeMap Bytes (Pv D)) (n num : ℕ) {s : Segment D}
    {ss : List (Segment D)}
    → get (segment_name (num + 1)) map ≡ some (Entry.text_map t)
    → Segments.from_textmap t pvs ≡ ok s
    → load_segments map pvs n (num + 1) ≡ ok ss
    → load_segments map pvs (suc n) num ≡ ok (s ∷ ss)
unfolding load_segments
found_segment map t pvs n num e g h = rw (e, load_segments) (rw (g, h))

range_length-as_i64 : (n : ℕ) → n < two63 → range_length (as_i64 n) ≡ n
unfolding as_i64
range_length-as_i64 n h = ground arith

module _ {D : Type 0} where
  abbrev pub reload_all : List (Segment D) → List (Segment D)
  reload_all [] = []
  reload_all (s ∷ ss) = reload s ∷ reload_all ss

-- A map with the entries of `lv_header` and with the segments `ss`.
loads_fields :
    {D : Type 0} (lv : Lv D) (map : TextMap) (pvs : BTreeMap Bytes (Pv D)) {ss : List (Segment D)}
    → get (bytes "id") map ≡ some (Entry.string lv.id)
    → get (bytes "creation_host") map ≡ some (Entry.string lv.creation_host)
    → get (bytes "creation_time") map ≡ some (Entry.number lv.creation_time)
    → get (bytes "segment_count") map ≡ some (Entry.number (as_i64 (length lv.segments)))
    → get (bytes "status") map ≡ some (Entry.list (entries_of lv.status))
    → get (bytes "flags") map ≡ some (Entry.list (entries_of lv.flags))
    → load_segments map pvs (range_length (as_i64 (length lv.segments))) 0 ≡ ok ss
    → Lv.from_textmap lv.name map pvs ≡ ok (record lv { segments = ss; device = none })
unfolding Lv.from_textmap status_from_textmap
loads_fields lv map pvs e1 e2 e3 e4 e5 e6 e7 =
    rw (e1, e2, e3, e4)
      (rw (e7, e5, e6) (rw (strings_of-entries_of lv.status, strings_of-entries_of lv.flags)))

module _ {D : Type 0} ⦃o : Ord D⦄ (dev_to_idx : BTreeMap D ℕ) (pvs : BTreeMap Bytes (Pv D)) where
  abbrev pub AreStorable : List (Segment D) → Type 0
  AreStorable [] = Unit
  AreStorable (s ∷ ss) = IsStorable dev_to_idx pvs s × AreStorable ss

  -- The map after the segments behind number `i`: other keys are untouched.
  record Stored (segs : List (Segment D)) (i : ℕ) (map : TextMap) : Type 0 where
    stored : TextMap
    stores : store_segments segs i dev_to_idx map ≡ ok stored
    loads : load_segments stored pvs (length segs) i ≡ ok (reload_all segs)
    header : (k : Bytes) → IsHeaderKey k → get k stored ≡ get k map
    earlier : (j : ℕ) → j ≤ i → get (segment_name j) stored ≡ get (segment_name j) map

  store-Stored :
      (segs : List (Segment D)) (i : ℕ) (map : TextMap) → AreStorable segs → Stored segs i map
  unfolding store_segments load_segments
  store-Stored [] i map h = record {
    stored = map;
    stores = refl;
    loads = refl;
    header = λ k _. refl;
    earlier = λ j _. refl;
  }
  store-Stored (s ∷ ss) i map (h, hs) =
      let (t, e, g) = segment_reload dev_to_idx pvs s h in
      let next =
        store-Stored ss (i + 1) (insert (segment_name (i + 1)) (Entry.text_map t) map) hs in
      record {
        stored = next.stored;
        stores = rw e next.stores;
        loads =
            found_segment next.stored t pvs (length ss) i
              (next.earlier (i + 1) (omega arith)
                ∙ rw (get-insert, same_refl (segment_name (i + 1))))
              g next.loads;
        header = λ k hk. next.header k hk ∙ rw (get-insert, hk (i + 1));
        earlier = λ j hj.
            next.earlier j (omega arith) ∙ rw (get-insert, segment_name_ne j (i + 1) (omega arith));
      }

  -- A volume whose numbers fit `u64` and whose stripes stand on known devices is written with no
  -- panic and read again with its name, identity, status, flags and creation; the segments are as
  -- `reload` says, in their order, and the device number is not kept.
  pub lv_round_trip :
      (lv : Lv D)
      → AreStorable lv.segments
      → length lv.segments < two63
      → (map : TextMap) × (Lv.to_textmap lv dev_to_idx ≡ ok map)
        × (Lv.from_textmap lv.name map pvs
            ≡ ok (record lv { segments = reload_all lv.segments; device = none }))
  unfolding Lv.to_textmap insert get before same
  lv_round_trip lv h few =
      let st = store-Stored lv.segments 0 (lv_header lv) h in
      let at_key = λ (k : Bytes) (hk : IsHeaderKey k). st.header k hk in
      (
        st.stored,
        st.stores,
        loads_fields lv st.stored pvs (at_key (bytes "id") (λ n. refl))
            (at_key (bytes "creation_host") (λ n. refl))
            (at_key (bytes "creation_time") (λ n. refl))
            (at_key (bytes "segment_count") segment_count_key) (at_key (bytes "status") (λ n. refl))
            (at_key (bytes "flags") (λ n. refl))
            (rw (range_length-as_i64 (length lv.segments) few) st.loads),
      )
