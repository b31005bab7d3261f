-- ===== src/Disk/Acts.antt =====
-- `File::write_all` on a device, with the device as a failing call leaves it.
use melvin.Prelude.{
  ℕ, ◌+◌, ◌-◌, leb, ◌≡◌, refl, if◌then◌else◌, Bytes, length, take, ok, err, io_failed, Bool-cases,
  inl, inr,
}
use melvin.Prelude.Act.{Act, settled}
use melvin.Disk.{Disk, write, write_all}

-- `seek(Start(p))` and `write_all(buf)`: past the end of the device it fails, and the bytes up to the
-- end are written.
unfoldable pub write_all_act : ℕ → Bytes → Act Disk (Unit {0})
write_all_act p buf = λ f.
    if leb (p + length buf) f.size
    then (record f { store = write p buf f.store }, ok tt)
    else (record f { store = write p (take (f.size - p) buf) f.store }, err io_failed)

-- It succeeds where `write_all` does, with the same device, and fails with the same error.
pub settled-write_all_act :
    (p : ℕ) (buf : Bytes) (f : Disk) → settled (write_all_act p buf f) ≡ write_all f p buf
unfolding write_all_act write_all
settled-write_all_act p buf f = elim (Bool-cases (leb (p + length buf) f.size)) [
  | inl inside ↦ rw inside refl
  | inr past ↦ rw past refl
]
