-- ===== src/Pv/RoundTrip.antt =====
-- A physical volume of src/pv.rs, written to a text map and read again.
use melvin.Prelude.{
  ℕ, ℤ, ◌<◌, ◌≡◌, bytes, before, same, same_refl, two64, as_u64-as_i64, ok, parse_i64-format_i64,
  IsI64, format_i64,
}
use melvin.Types.{Pv}
use melvin.Parser.TextMap.{Entry, TextMap, insert, get, status_from_textmap}
use melvin.Parser.TextMap.Laws.{get-insert, strings_of-entries_of}
use melvin.Pv.{dev_from_textmap, from_textmap, to_textmap}

pub record FitsU64 {D : Type 0} (to_u64 : D → ℕ) (pv : Pv D) : Type 0 where
  pub device : to_u64 pv.device < two64
  pub dev_size : pv.dev_size < two64
  pub pe_start : pv.pe_start < two64
  pub pe_count : pv.pe_count < two64

module _ {D : Type 0} (from_u64 : ℕ → D) (to_u64 : D → ℕ)
    (from-to : (d : D) → from_u64 (to_u64 d) ≡ d) where
  -- A volume whose numbers fit `u64` is read again as it was written, with every field, if
  -- `from_u64` undoes `to_u64`.
  pub pv_round_trip :
      (pv : Pv D) → FitsU64 to_u64 pv → from_textmap from_u64 (to_textmap to_u64 pv) ≡ ok pv
  unfolding from_textmap to_textmap status_from_textmap insert get before same
  pv_round_trip pv h = rw (
    as_u64-as_i64 (to_u64 pv.device) h.device,
    from-to pv.device,
    as_u64-as_i64 pv.dev_size h.dev_size,
    as_u64-as_i64 pv.pe_start h.pe_start,
    as_u64-as_i64 pv.pe_count h.pe_count,
    strings_of-entries_of pv.status,
    strings_of-entries_of pv.flags,
  )

-- A device number of `i64` that is written as decimal text gives the same device as one that is
-- written as a number.
pub dev_from_textmap-string :
    {D : Type 0} (from_u64 : ℕ → D) (map : TextMap) (z : ℤ)
    → IsI64 z
    → dev_from_textmap from_u64 (insert (bytes "device") (Entry.string (format_i64 z)) map)
      ≡ dev_from_textmap from_u64 (insert (bytes "device") (Entry.number z) map)
unfolding dev_from_textmap
dev_from_textmap-string from_u64 map z h =
    simp (get-insert, same_refl (bytes "device"), parse_i64-format_i64 z h)
