-- ===== src/Crates.antt =====
-- What src/util.rs and src/pvlabel.rs use of other crates: byteorder's `LittleEndian` and crc's
-- `crc32`. The functions are parameters of the model.
use melvin.Prelude.{
  ℕ, zero, suc, ◌+◌, ◌*◌, ◌/◌, ◌%◌, ◌^◌, ◌<◌, ◌≡◌, List, [], ◌∷◌, Bytes, take, arith, two64,
}
use mathlib.Core.Path.{fun_ext}

pub record Crates : Type 0 where
  pub read_u32 : Bytes → ℕ
  pub read_u64 : Bytes → ℕ
  pub write_u32 : ℕ → Bytes
  pub write_u64 : ℕ → Bytes
  pub make_table : ℕ → List ℕ
  pub crc_update : ℕ → List ℕ → Bytes → ℕ

-- A number in `w` bytes, the lowest first, and the number that bytes stand for.
abbrev pub le : ℕ → ℕ → Bytes
le zero n = []
le (suc w) n = n % 256 ∷ le w (n / 256)

abbrev pub read_le : Bytes → ℕ
read_le [] = 0
read_le (b ∷ bs) = b + 256 * read_le bs

-- The byteorder crate reads and writes little-endian numbers, as its documentation says.
pub record IsLittleEndian (c : Crates) : Type 0 where
  pub reads_u32 : (b : Bytes) → c.read_u32 b ≡ read_le (take 4 b)
  pub reads_u64 : (b : Bytes) → c.read_u64 b ≡ read_le (take 8 b)
  pub writes_u32 : (n : ℕ) → c.write_u32 n ≡ le 4 n
  pub writes_u64 : (n : ℕ) → c.write_u64 n ≡ le 8 n

abbrev pub little_endian : Crates → Crates
little_endian c = record c {
  read_u32 = λ b. read_le (take 4 b);
  read_u64 = λ b. read_le (take 8 b);
  write_u32 = le 4;
  write_u64 = le 8;
}

pub IsLittleEndian-little_endian : (c : Crates) → IsLittleEndian c → c ≡ little_endian c
IsLittleEndian-little_endian c h = λ i. record {
  read_u32 = fun_ext h.reads_u32 i;
  read_u64 = fun_ext h.reads_u64 i;
  write_u32 = fun_ext h.writes_u32 i;
  write_u64 = fun_ext h.writes_u64 i;
  make_table = c.make_table;
  crc_update = c.crc_update;
}

pub read_u64-le : (n : ℕ) → n < two64 → read_le (le 8 n) ≡ n
read_u64-le n h = omega arith

pub read_u32-le : (n : ℕ) → n < 2 ^ 32 → read_le (le 4 n) ≡ n
read_u32-le n h = omega arith
