-- ===== src/Lv/Segments.antt =====
-- `mod segment` of src/lv.rs: the kinds of segments behind the trait `Segment`.
use melvin.Prelude.{
  ℕ, zero, ◌+◌, ◌%◌, ◌==◌, ℤ, pos, Bool, true, false, List, [], ◌∷◌, ◌++◌, Option, none, some,
  Bytes, bytes, same, length, as_i64, as_u64, two64, format_u64, if◌then◌else◌, Result, ok, err,
  panicked, ◌>>=◌, ok_or, unwrap, striped_parsing, thinpool_parsing, thinpool_discards,
  thin_parsing,
}
use melvin.BTree
use melvin.BTree.{Ord, BTreeMap, bytes_ord}
use melvin.Types.{
  Pv, Segment, striped, thinpool, thin, StripedSegment, ThinpoolSegment, ThinSegment, DiscardPolicy,
  passdown, no_passdown, ignore,
}
use melvin.Parser.TextMap.{
  Entry, Entries, nil, cons, TextMap, empty, insert, i64_from_textmap, string_from_textmap,
  list_from_textmap,
}

-- `iter().sum()` of `u64`s.
abbrev pub sum_u64 : List ℕ → ℕ
sum_u64 [] = 0
sum_u64 (x ∷ xs) = (x + sum_u64 xs) % two64

stripe_start : Entry → Result ℕ
stripe_start (Entry.number x) = ok (as_u64 x)
stripe_start _ = err striped_parsing

module _ {D : Type 0} where
  stripe_device : BTreeMap Bytes (Pv D) → Entry → Result D
  stripe_device pvs (Entry.string x) = do pv ← ok_or (BTree.get x pvs) striped_parsing; ok pv.device
  stripe_device pvs _ = err striped_parsing

  -- `stripe_list.chunks(2)`: a last chunk of one entry is indexed past its end.
  unfoldable pub load_stripes : BTreeMap Bytes (Pv D) → Entries → Result (List (D × ℕ))
  unfolding stripe_device stripe_start
  load_stripes pvs nil = ok []
  load_stripes pvs (cons x nil) = stripe_device pvs x >>= λ _. panicked
  load_stripes pvs (cons x (cons y rest)) = do
    dev ← stripe_device pvs x
    val ← stripe_start y
    stripes ← load_stripes pvs rest
    ok ((dev, val) ∷ stripes)

  unfoldable pub striped_from_textmap : TextMap → BTreeMap Bytes (Pv D) → Result (Segment D)
  unfolding load_stripes
  striped_from_textmap map pvs = do
    stripe_list ← ok_or (list_from_textmap map (bytes "stripes")) striped_parsing
    stripes ← load_stripes pvs stripe_list
    start_extent ← ok_or (i64_from_textmap map (bytes "start_extent")) striped_parsing
    extent_count ← ok_or (i64_from_textmap map (bytes "extent_count")) striped_parsing
    ok (
        striped (record {
          start_extent = as_u64 start_extent;
          extent_count = as_u64 extent_count;
          stripe_size = elim (i64_from_textmap map (bytes "start_extent")) [
            | none ↦ none
            | some x ↦ some (as_u64 x)
          ];
          stripes = stripes;
        }))

unfoldable pub discard_policy : Option Bytes → Result DiscardPolicy
discard_policy none = err thinpool_discards
discard_policy (some s) =
    if same s (bytes "passdown")
    then ok passdown
    else if same s (bytes "nopassdown")
    then ok no_passdown
    else if same s (bytes "ignore")
    then ok ignore
    else err thinpool_discards

abbrev pub nonzero : ℤ → Bool
nonzero (pos zero) = false
nonzero _ = true

module _ {D : Type 0} where
  unfoldable pub thinpool_from_textmap : TextMap → Result (Segment D)
  thinpool_from_textmap map = do
    discards ← discard_policy (string_from_textmap map (bytes "discards"))
    start_extent ← ok_or (i64_from_textmap map (bytes "start_extent")) thinpool_parsing
    extent_count ← ok_or (i64_from_textmap map (bytes "extent_count")) thinpool_parsing
    metadata_lv ← ok_or (string_from_textmap map (bytes "metadata")) thinpool_parsing
    data_lv ← ok_or (string_from_textmap map (bytes "pool")) thinpool_parsing
    transaction_id ← ok_or (i64_from_textmap map (bytes "transaction_id")) thinpool_parsing
    chunk_size ← ok_or (i64_from_textmap map (bytes "chunk_size")) thinpool_parsing
    zero_new_blocks ← ok_or (i64_from_textmap map (bytes "start_extent")) thinpool_parsing
    ok (
        thinpool (record {
          start_extent = as_u64 start_extent;
          extent_count = as_u64 extent_count;
          metadata_lv = metadata_lv;
          data_lv = data_lv;
          transaction_id = as_u64 transaction_id;
          chunk_size = as_u64 chunk_size;
          discards = discards;
          zero_new_blocks = nonzero zero_new_blocks;
        }))

  unfoldable pub thin_from_textmap : TextMap → Result (Segment D)
  thin_from_textmap map = do
    start_extent ← ok_or (i64_from_textmap map (bytes "start_extent")) thin_parsing
    extent_count ← ok_or (i64_from_textmap map (bytes "extent_count")) thin_parsing
    thin_pool ← ok_or (string_from_textmap map (bytes "thin_pool")) thin_parsing
    transaction_id ← ok_or (i64_from_textmap map (bytes "transaction_id")) thin_parsing
    device_id ← ok_or (i64_from_textmap map (bytes "device_id")) thin_parsing
    ok (
        thin (record {
          start_extent = as_u64 start_extent;
          extent_count = as_u64 extent_count;
          thin_pool = thin_pool;
          transaction_id = as_u64 transaction_id;
          device_id = as_u64 device_id;
        }))

  -- An unknown kind is `unimplemented!()`.
  from_kind : Option Bytes → TextMap → BTreeMap Bytes (Pv D) → Result (Segment D)
  from_kind none map pvs = panicked
  from_kind (some s) map pvs =
      if same s (bytes "striped")
      then striped_from_textmap map pvs
      else if same s (bytes "thin-pool")
      then thinpool_from_textmap map
      else if same s (bytes "thin")
      then thin_from_textmap map
      else panicked

  unfoldable pub from_textmap : TextMap → BTreeMap Bytes (Pv D) → Result (Segment D)
  unfolding from_kind
  from_textmap map pvs = from_kind (string_from_textmap map (bytes "type")) map pvs

-- `format!("pv{}", n)`
abbrev pub pv_name : ℕ → Bytes
pv_name n = bytes "pv" ++ format_u64 n

module _ {D : Type 0} ⦃o : Ord D⦄ where
  -- The stripes as a flat list of names and extents; a device with no index is a panic.
  unfoldable pub store_stripes : List (D × ℕ) → BTreeMap D ℕ → Result Entries
  store_stripes [] dev_to_idx = ok nil
  store_stripes ((k, v) ∷ stripes) dev_to_idx = do
    idx ← unwrap (BTree.get k dev_to_idx)
    rest ← store_stripes stripes dev_to_idx
    ok (cons (Entry.string (pv_name idx)) (cons (Entry.number (as_i64 v)) rest))

abbrev with_stripe_size : Option ℕ → TextMap → TextMap
with_stripe_size none map = map
with_stripe_size (some n) map = insert (bytes "stripe_size") (Entry.number (as_i64 n)) map

module _ {D : Type 0} where
  -- The entries of a striped segment, around the list of its stripes.
  abbrev pub striped_map : StripedSegment D → Entries → TextMap
  striped_map s l =
      let m1 = insert (bytes "start_extent") (Entry.number (as_i64 s.start_extent)) empty in
      let m2 = insert (bytes "extent_count") (Entry.number (as_i64 s.extent_count)) m1 in
      let m3 = insert (bytes "type") (Entry.string (bytes "striped")) m2 in
      let m4 = insert (bytes "stripe_count") (Entry.number (as_i64 (length s.stripes))) m3 in
      insert (bytes "stripes") (Entry.list l) (with_stripe_size s.stripe_size m4)

module _ {D : Type 0} ⦃o : Ord D⦄ where
  unfoldable pub striped_to_textmap : StripedSegment D → BTreeMap D ℕ → Result TextMap
  striped_to_textmap s dev_to_idx = store_stripes s.stripes dev_to_idx >>= λ l. ok (striped_map s l)

abbrev pub discard_text : DiscardPolicy → Bytes
discard_text passdown = bytes "passdown"
discard_text no_passdown = bytes "nopassdown"
discard_text ignore = bytes "ignore"

-- `b as i64`
abbrev bool_i64 : Bool → ℤ
bool_i64 true = pos 1
bool_i64 false = pos 0

unfoldable pub thinpool_to_textmap : ThinpoolSegment → TextMap
thinpool_to_textmap s =
    let m1 = insert (bytes "start_extent") (Entry.number (as_i64 s.start_extent)) empty in
    let m2 = insert (bytes "extent_count") (Entry.number (as_i64 s.extent_count)) m1 in
    let m3 = insert (bytes "type") (Entry.string (bytes "thin-pool")) m2 in
    let m4 = insert (bytes "metadata") (Entry.string s.metadata_lv) m3 in
    let m5 = insert (bytes "pool") (Entry.string s.data_lv) m4 in
    let m6 = insert (bytes "transaction_id") (Entry.number (as_i64 s.transaction_id)) m5 in
    let m7 = insert (bytes "chunk_size") (Entry.number (as_i64 s.chunk_size)) m6 in
    let m8 = insert (bytes "discards") (Entry.string (discard_text s.discards)) m7 in
    insert (bytes "zero_new_blocks") (Entry.number (bool_i64 s.zero_new_blocks)) m8

unfoldable pub thin_to_textmap : ThinSegment → TextMap
thin_to_textmap s =
    let m1 = insert (bytes "start_extent") (Entry.number (as_i64 s.start_extent)) empty in
    let m2 = insert (bytes "extent_count") (Entry.number (as_i64 s.extent_count)) m1 in
    let m3 = insert (bytes "type") (Entry.string (bytes "thin")) m2 in
    let m4 = insert (bytes "thin_pool") (Entry.string s.thin_pool) m3 in
    let m5 = insert (bytes "transaction_id") (Entry.number (as_i64 s.transaction_id)) m4 in
    insert (bytes "device_id") (Entry.number (as_i64 s.device_id)) m5

module _ {D : Type 0} ⦃o : Ord D⦄ where
  unfoldable pub to_textmap : Segment D → BTreeMap D ℕ → Result TextMap
  unfolding striped_to_textmap thinpool_to_textmap thin_to_textmap
  to_textmap (striped s) dev_to_idx = striped_to_textmap s dev_to_idx
  to_textmap (thinpool s) dev_to_idx = ok (thinpool_to_textmap s)
  to_textmap (thin s) dev_to_idx = ok (thin_to_textmap s)

module _ {D : Type 0} where
  abbrev pub start_extent : Segment D → ℕ
  start_extent (striped s) = s.start_extent
  start_extent (thinpool s) = s.start_extent
  start_extent (thin s) = s.start_extent

  abbrev pub extent_count : Segment D → ℕ
  extent_count (striped s) = s.extent_count
  extent_count (thinpool s) = s.extent_count
  extent_count (thin s) = s.extent_count

  abbrev pub devices_of : List (D × ℕ) → List D
  devices_of [] = []
  devices_of ((dev, _) ∷ stripes) = dev ∷ devices_of stripes

  -- Only stripes stand on physical volumes themselves.
  unfoldable pub pv_dependencies : Segment D → List D
  pv_dependencies (striped s) = devices_of s.stripes
  pv_dependencies (thinpool s) = []
  pv_dependencies (thin s) = []

  abbrev pub areas_from : ℕ → List (D × ℕ) → List (D × ℕ × ℕ)
  areas_from count [] = []
  areas_from count ((dev, ext) ∷ stripes) = (dev, ext, count) ∷ areas_from count stripes

  -- Device, first extent, length.
  unfoldable pub used_areas : Segment D → List (D × ℕ × ℕ)
  used_areas (striped s) = areas_from s.extent_count s.stripes
  used_areas (thinpool s) = []
  used_areas (thin s) = []

  unfoldable pub dm_type : Segment D → Bytes
  dm_type (striped s) = if length s.stripes == 1 then bytes "linear" else bytes "striped"
  dm_type (thinpool s) = bytes "thin-pool"
  dm_type (thin s) = bytes "thin"
