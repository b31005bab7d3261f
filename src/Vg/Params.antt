-- ===== src/Vg/Params.antt =====
-- `dm_params` of the segments of src/lv.rs: the text that the device mapper gets for a segment. `major` and
-- `minor` are the fields of `Device`.
pub mod Located
use melvin.Prelude.{
  ℕ, suc, ◌+◌, ◌*◌, ◌/◌, ◌%◌, ◌==◌, ◌≡◌, refl, sym, ap, ◌∙◌, Bool, true, false, ◌||◌, not,
  if◌then◌else◌, List, [], ◌∷◌, ◌++◌, Option, none, some, Bytes, bytes, length, format_u64, two64,
  Result, ok, panicked, ◌>>=◌, unwrap, arith, Bool-cases, inl, inr,
}
use melvin.BTree.{Ord, bytes_ord, get, contains_key}
use melvin.Types.{
  Pv, Lv, Vg, Segment, StripedSegment, ThinpoolSegment, ThinSegment, DiscardPolicy, striped,
  thinpool, thin, passdown, no_passdown, ignore,
}
use melvin.Parser.Printer.{join}
use melvin.Vg.{pv_get, lv_get}

module _ {D : Type 0} (major minor : D → ℕ) where
  -- `format!("{}:{} {}", dev.major, dev.minor, n)`
  abbrev pub device_at : D → ℕ → Bytes
  device_at dev n =
      format_u64 (major dev)
      ++ (bytes ":" ++ (format_u64 (minor dev) ++ (bytes " " ++ format_u64 n)))

  abbrev discards_param : DiscardPolicy → Bytes
  discards_param passdown = []
  discards_param no_passdown = bytes " no_discard_passdown"
  discards_param ignore = bytes " ignore_discard"

  module _ ⦃o : Ord D⦄ (vg : Vg D) where
    -- A stripe on its device, in sectors from the start of the device.
    unfoldable pub stripe_param : D → ℕ → Result Bytes
    stripe_param dev start_ext = do
      pv ← unwrap (pv_get vg dev)
      ok (device_at dev ((start_ext * vg.extent_size % two64 + pv.pe_start) % two64))

    unfoldable pub stripe_params : List (D × ℕ) → Result (List Bytes)
    stripe_params [] = ok []
    stripe_params ((dev, start_ext) ∷ stripes) = do
      x ← stripe_param dev start_ext
      xs ← stripe_params stripes
      ok (x ∷ xs)

    unfoldable pub striped_params : StripedSegment D → List (D × ℕ) → Result Bytes
    striped_params s ((dev, start_ext) ∷ []) = stripe_param dev start_ext
    striped_params s stripes = do
      xs ← stripe_params stripes
      stripe_size ← unwrap s.stripe_size
      ok (
          format_u64 (length stripes)
          ++ (bytes " " ++ (format_u64 stripe_size ++ (bytes " " ++ join (bytes " ") xs))))

    -- A chunk size of 0 is a panic.
    unfoldable pub thinpool_params : ThinpoolSegment → Result Bytes
    thinpool_params s =
        if s.chunk_size == 0
        then panicked
        else let chunks = s.extent_count * vg.extent_size % two64 / s.chunk_size in
          let ctor =
            s.metadata_lv
            ++ (bytes " "
                ++ (s.data_lv
                    ++ (bytes " "
                        ++ (format_u64 s.chunk_size ++ (bytes " " ++ format_u64 (chunks / 5)))))) in
          let zeroing = if s.zero_new_blocks then [] else bytes " skip_block_zeroing" in
          ok (ctor ++ (zeroing ++ discards_param s.discards))

    -- A pool that is missing or not set up is a panic.
    unfoldable pub thin_params : ThinSegment → Result Bytes
    thin_params s = do
      pool_lv ← unwrap (lv_get vg s.thin_pool)
      pool_dev ← unwrap pool_lv.device
      ok (device_at pool_dev s.device_id)

    unfoldable pub dm_params : Segment D → Result Bytes
    dm_params (striped s) = striped_params s s.stripes
    dm_params (thinpool s) = thinpool_params s
    dm_params (thin s) = thin_params s
