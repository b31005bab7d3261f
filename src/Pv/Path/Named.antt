-- ===== src/Pv/Path/Named.antt =====
-- What `PV::path` of src/pv.rs finds in a list of partitions as the kernel prints it.
use melvin.Prelude.{
  ℕ, ◌<◌, ◌==◌, ◌≡◌, refl, true, ◌&&◌, List, [], ◌∷◌, ◌++◌, Option, none, some, Bytes, bytes, ok,
  if◌then◌else◌, All, is_digit, arith, parse_u32-format_u64, format_u64, format_u64_cons,
  split_whitespace, spaces, IsPlain, split_whitespace-spaces, split_whitespace_word,
  split_whitespace_last,
}
use melvin.Types.{Pv}
use melvin.Pv.Path.{path, find_line}

-- A partition: its device, its blocks, its name (`initial` and `rest`), and how many spaces there are
-- beside those that separate the fields.
pub record Partition : Type 0 where
  pub major : ℕ
  pub minor : ℕ
  pub blocks : ℕ
  pub initial : ℕ
  pub rest : Bytes
  pub pad_major : ℕ
  pub pad_minor : ℕ
  pub pad_blocks : ℕ

abbrev pub line_of : Partition → Bytes
line_of p = spaces p.pad_major (
    format_u64 p.major
    ++ 32
      ∷ spaces p.pad_minor (
          format_u64 p.minor
          ++ 32 ∷ spaces p.pad_blocks (format_u64 p.blocks ++ 32 ∷ p.initial ∷ p.rest)))

abbrev pub lines_of : List Partition → List (Option Bytes)
lines_of [] = []
lines_of (p ∷ ps) = some (line_of p) ∷ lines_of ps

-- The numbers fit `u32`, and the name is printable ASCII without spaces.
abbrev pub ArePartitions : List Partition → Type 0
ArePartitions [] = Unit
ArePartitions (p ∷ ps) =
    (p.major < 0x100000000)
    × (p.minor < 0x100000000)
    × IsPlain (p.initial ∷ p.rest)
    × ArePartitions ps

-- The path of the first partition with these numbers.
abbrev pub path_named : ℕ → ℕ → List Partition → Option Bytes
path_named major minor [] = none
path_named major minor (p ∷ ps) =
    if p.major == major && p.minor == minor
    then some (bytes "/dev/" ++ p.initial ∷ p.rest)
    else path_named major minor ps

digits-IsPlain : (w : Bytes) → All (λ c. is_digit c ≡ true) w → IsPlain w
digits-IsPlain [] h = tt
digits-IsPlain (c ∷ w) (d, h) = ((ground arith, ground arith), digits-IsPlain w h)

split_whitespace_number :
    (n : ℕ) (s : Bytes)
    → split_whitespace (format_u64 n ++ 32 ∷ s) ≡ format_u64 n ∷ split_whitespace s
split_whitespace_number n s =
    let (c, cs, e, d, ds, _) = format_u64_cons n in
    rw e (split_whitespace_word c cs s (digits-IsPlain (c ∷ cs) (d, ds)))

split_whitespace-line_of :
    (p : Partition)
    → IsPlain (p.initial ∷ p.rest)
    → split_whitespace (line_of p)
      ≡ format_u64 p.major ∷ format_u64 p.minor ∷ format_u64 p.blocks ∷ (p.initial ∷ p.rest) ∷ []
split_whitespace-line_of p plain = rw (
  split_whitespace-spaces,
  split_whitespace_number,
  split_whitespace-spaces,
  split_whitespace_number,
  split_whitespace-spaces,
  split_whitespace_number,
  split_whitespace_last p.initial p.rest plain,
)

find_line-lines_of :
    (major minor : ℕ) (ps : List Partition)
    → ArePartitions ps
    → find_line major minor (lines_of ps) ≡ ok (path_named major minor ps)
unfolding find_line
find_line-lines_of major minor [] h = refl
find_line-lines_of major minor (p ∷ ps) (h1, h2, plain, h) =
    rw
      (
        split_whitespace-line_of p plain,
        parse_u32-format_u64 p.major h1,
        parse_u32-format_u64 p.minor h2,
        find_line-lines_of major minor ps h,
      )
      (ground arith)

-- If /proc/partitions has two lines of any text and then the lines of the partitions, each of them
-- "major minor blocks name" with one space or more between the fields, numbers that fit `u32` and a
-- name of printable ASCII, then `path` does not panic, and returns the path of the first partition
-- with the volume's device, or none if there is none.
pub path-lines_of :
    {D : Type 0} (major minor : D → ℕ) (first second : Option Bytes) (ps : List Partition)
    (pv : Pv D)
    → ArePartitions ps
    → path major minor (some (first ∷ second ∷ lines_of ps)) pv
      ≡ ok (path_named (major pv.device) (minor pv.device) ps)
unfolding path
path-lines_of major minor first second ps pv h =
    find_line-lines_of (major pv.device) (minor pv.device) ps h
