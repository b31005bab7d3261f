-- ===== src/Pv/Path.antt =====
-- `PV::path` of src/pv.rs. `partitions` is what `lines()` yields of /proc/partitions: `none` as a whole
-- if the file cannot be opened, and as a line that cannot be read. `major` and `minor` are the fields
-- of `Device`.
pub mod Named
use melvin.Prelude.{
  ℕ, zero, ◌+◌, ◌<◌, ◌==◌, ◌≡◌, refl, ap, ◌∙◌, Bool, true, false, List, [], ◌∷◌, ◌++◌, Option, none,
  some, Bytes, bytes, Result, ok, ◌>>=◌, unwrap, if◌then◌else◌, get_elem?, drop, parse_u32,
  split_whitespace, format_u64,
}
use melvin.Types.{Pv}

-- `spl[i].parse::<u32>().unwrap()`
abbrev number_at : List Bytes → ℕ → Result ℕ
number_at spl i = unwrap (get_elem? spl i) >>= λ s. unwrap (parse_u32 s)

-- The test of a line; the second number is looked at only if the first fits.
abbrev is_device : ℕ → ℕ → List Bytes → Result Bool
is_device dev_major dev_minor spl = number_at spl 0 >>= λ a.
    if a == dev_major then (number_at spl 1 >>= λ b. ok (b == dev_minor)) else ok false

-- The loop over the lines.
unfoldable pub find_line : ℕ → ℕ → List (Option Bytes) → Result (Option Bytes)
find_line dev_major dev_minor [] = ok none
find_line dev_major dev_minor (none ∷ lines) = find_line dev_major dev_minor lines
find_line dev_major dev_minor (some line ∷ lines) =
    let rest = find_line dev_major dev_minor lines in
    let spl = split_whitespace line in
    is_device dev_major dev_minor spl >>= λ found.
    if found then (unwrap (get_elem? spl 3) >>= λ name. ok (some (bytes "/dev/" ++ name))) else rest

unfoldable pub path :
    {D : Type 0} (major minor : D → ℕ) → Option (List (Option Bytes)) → Pv D → Result (Option Bytes)
unfolding find_line
path major minor partitions pv =
    unwrap partitions >>= λ lines. find_line (major pv.device) (minor pv.device) (drop 2 lines)
