-- ===== src/Disk.antt =====
-- Devices and the calls of `std::fs::File` that src/pvlabel.rs makes. A device has a fixed size, and
-- holds a byte at each position.
pub mod Laws
pub mod Acts
use melvin.Prelude.{
  ℕ, zero, suc, ◌+◌, ◌-◌, ◌≤◌, leb, ◌==◌, if◌then◌else◌, List, [], ◌∷◌, ◌++◌, Bytes, length, drop,
  slice, ◌&&◌, Result, ok, err, panicked, ok_or, io_failed, Option,
}
use Prim.Native.Nat.{min}
use melvin.BTree.{BTreeMap, bytes_ord}
use melvin.BTree

-- Bytes by their position.
abbrev pub Store : Type 0
Store = ℕ → ℕ

abbrev pub set : ℕ → ℕ → Store → Store
set i c s = λ j. if j == i then c else s j

-- `bytes` from position `i` on.
unfoldable pub write : ℕ → Bytes → Store → Store
write i [] s = s
write i (c ∷ cs) s = set i c (write (i + 1) cs s)

-- The `n` bytes from position `i` on.
unfoldable pub read : ℕ → ℕ → Store → Bytes
read i zero s = []
read i (suc n) s = s i ∷ read (i + 1) n s

-- `[0u8; n]`
abbrev pub zeroed : Store
zeroed = λ _. 0

unfoldable pub zeros : ℕ → Bytes
zeros zero = []
zeros (suc n) = 0 ∷ zeros n

-- `&b[from..to]` and `&b[from..]`: past the end they panic.
abbrev pub slice_of : Bytes → ℕ → ℕ → Result Bytes
slice_of b from to = if leb from to && leb to (length b) then ok (slice b from to) else panicked

abbrev pub slice_from : Bytes → ℕ → Result Bytes
slice_from b from = if leb from (length b) then ok (drop from b) else panicked

pub record Disk : Type 0 where
  pub size : ℕ
  pub store : Store

-- `seek(Start(p))` and one `read(&mut buf)`: it stops at the end of the device, and the rest of
-- `buf` stays.
unfoldable pub read_into : Disk → ℕ → Bytes → Bytes
read_into d p buf = let k = min (length buf) (d.size - p) in read p k d.store ++ drop k buf

-- `seek(Start(p))` and `write_all(buf)`: past the end of the device it is an error, and the device is
-- dropped. Disk/Acts keeps it.
unfoldable pub write_all : Disk → ℕ → Bytes → Result Disk
write_all d p buf =
    if leb (p + length buf) d.size
    then ok (record d { store = write p buf d.store })
    else err io_failed

-- The devices by their paths. A path that names none cannot be opened.
abbrev pub Devices : Type 0
Devices = BTreeMap Bytes Disk

unfoldable pub open_file : Bytes → Devices → Result Disk
open_file path devices = ok_or (BTree.get path devices) io_failed
