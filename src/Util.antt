-- ===== src/Util.antt =====
-- src/util.rs: alignment, checksums, and identifiers hyphenated as LVM2 does.
pub mod Hyphens
pub mod Align
use Prim.Native.Nat.{bit_and}
use melvin.Crates.{Crates}
use melvin.Prelude.{
  ◌+◌, ◌-◌, ◌%◌, ◌^◌, ◌<◌, arith, two64, [], ◌==◌, leb, ◌∷◌, ◌++◌, Bytes, ℕ, length, slice,
  from_utf8_lossy, if◌then◌else◌, Result, ok, panicked,
}

-- `String::from_utf8_lossy(&uuid[from..to])`
abbrev pub part : Bytes → ℕ → ℕ → Bytes
part uuid from to = from_utf8_lossy (slice uuid from to)

abbrev pub hyphenated : Bytes → Bytes
hyphenated uuid =
    part uuid 0 6
    ++ (b'-'
        ∷ (part uuid 6 10
            ++ (b'-'
                ∷ (part uuid 10 14
                    ++ (b'-'
                        ∷ (part uuid 14 18
                            ++ (b'-'
                                ∷ (part uuid 18 22
                                    ++ (b'-'
                                        ∷ (part uuid 22 26 ++ (b'-' ∷ part uuid 26 32)))))))))))

-- A slice past the end is a panic.
unfoldable pub hyphenate_uuid : Bytes → Result Bytes
hyphenate_uuid uuid = if leb 32 (length uuid) then ok (hyphenated uuid) else panicked

-- `(num + agn) & !agn` in `usize`, of 64 bits
unfoldable pub align_to : ℕ → ℕ → ℕ
align_to num align =
    let agn = (align + two64 - 1) % two64 in bit_and ((num + agn) % two64) (two64 - 1 - agn)

-- `!x` of a `u32`
abbrev pub not_u32 : ℕ → ℕ
not_u32 x = 2 ^ 32 - 1 - x

abbrev initial_crc : ℕ
initial_crc = 0xf597a6cf

abbrev crc_seed : ℕ
crc_seed = 0xedb88320

unfoldable pub crc32_calc : Crates → Bytes → ℕ
crc32_calc c buf = not_u32 (c.crc_update (not_u32 initial_crc) (c.make_table crc_seed) buf)

-- `simple` is what `Uuid::new_v4().to_simple_string()` of the uuid crate returns.
abbrev pub make_uuid : Bytes → Result Bytes
make_uuid simple = hyphenate_uuid simple

-- `replace("-", "")`
abbrev pub without_hyphens : Bytes → Bytes
without_hyphens [] = []
without_hyphens (c ∷ cs) = if c == b'-' then without_hyphens cs else c ∷ without_hyphens cs

pub crc32_calc-lt : (c : Crates) (buf : Bytes) → crc32_calc c buf < 2 ^ 32
unfolding crc32_calc
crc32_calc-lt c buf = omega arith
