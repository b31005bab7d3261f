-- ===== src/Vg/Live.antt =====
-- `lv_create_linear` of src/vg.rs does what it is asked to, when there is room.
use melvin.Prelude.{
  ℕ, ◌≤◌, ◌≡◌, refl, false, ◌++◌, List, some, none, Bytes, bytes, length, ok, Result, Option-cases,
  inl, inr, arith,
}
use melvin.BTree.{Ord, BTreeMap, bytes_ord, values, insert, contains_key}
use melvin.Types.{Vg}
use melvin.Crates.{IsLittleEndian}
use melvin.Disk.{Devices}
use melvin.Util.{make_uuid}
use melvin.Parser.TextMap.{TextMap}
use melvin.Parser.Printer.{textmap_to_buf}
use melvin.Parser.Printable.{IsPrintable}
use melvin.Parser.RoundTrip.{buf_to_textmap-textmap_to_buf}
use melvin.Vg.{Areas, free_areas, find_contig}
use melvin.Vg.Search.{IsArea, find_contig-fits, find_contig-none}
use melvin.Vg.System.{System, TargetLine}
use melvin.Vg.Text
use melvin.Vg.Commit.{disk_map, next_seqno, commit}
use melvin.Vg.Commit.RoundTrip.{Target, AreWritten}
use melvin.Vg.Commit.Again.{CanCommit, commit-CanCommit}
use melvin.Vg.Consistent.{IsConsistent, AreConsistent-insert_lv}
use melvin.Vg.Written.{to_textmap-total}
use melvin.Vg.Preserved.{linear-stands}
use melvin.Vg.Total.{free_areas-HavePvs, find_contig-Has}
use melvin.Vg.Logical.{lv_create_linear, new_lv, linear_segment, doubled_hyphens, set_up}

module _ {D : Type 0} ⦃o : Ord D⦄ where
  -- The group with a linear volume, in its next generation.
  abbrev pub with_linear : System D → Bytes → Bytes → ℕ → D → ℕ → Vg D → Vg D
  with_linear s name id n dev start vg =
      next_seqno
        (record vg { lvs = insert name (new_lv s name id (linear_segment dev start n)) vg.lvs })

  find_contig-some :
      (n : ℕ) (free : BTreeMap D Areas) (dev : D) (start len : ℕ)
      → IsArea free dev start len
      → n ≤ len
      → (found : D × ℕ × ℕ) × (find_contig n free none ≡ some found)
  find_contig-some n free dev start len area fits = elim (Option-cases (find_contig n free none)) [
    | inl never ↦ absurd (omega (arith, find_contig-none n free dev start len never area))
    | inr found ↦ found
  ]

  set_up-ok :
      (s : System D) (lv_name dm_name : Bytes) (dev : D) (start len : ℕ)
      → s.dm_new ≡ ok tt
      → s.dm_name lv_name ≡ ok dm_name
      → ((table : List (TargetLine D)) → s.linear_setup dm_name table ≡ ok tt)
      → set_up s lv_name dev start len ≡ ok tt
  unfolding set_up
  set_up-ok s lv_name dm_name dev start len dm named set = rw (dm, named, set) refl

  -- Behind the search, the identifier and the device mapper is the commit.
  lv_create_linear-commit :
      (s : System D) (name id : Bytes) (n : ℕ) (vg : Vg D) (free : BTreeMap D Areas) (dev : D)
      (start len : ℕ) (devices : Devices) {r : Result (Vg D × Devices)}
      → contains_key name vg.lvs ≡ false
      → free_areas vg ≡ ok free
      → find_contig n free none ≡ some (dev, start, len)
      → make_uuid s.simple ≡ ok id
      → set_up s (doubled_hyphens vg.name ++ (bytes "-" ++ doubled_hyphens name)) dev start len
        ≡ ok tt
      → commit s
          (record vg { lvs = insert name (new_lv s name id (linear_segment dev start n)) vg.lvs })
          devices
        ≡ r
      → lv_create_linear s name n vg devices ≡ r
  unfolding lv_create_linear
  lv_create_linear-commit s name id n vg free dev start len devices new searched found made set
        done =
      rw (new, searched, found, made, set) done

  linear-IsConsistent :
      (s : System D) (name id : Bytes) (n : ℕ) (vg : Vg D) (free : BTreeMap D Areas) (dev : D)
      (start len : ℕ)
      → IsConsistent vg
      → free_areas vg ≡ ok free
      → find_contig n free none ≡ some (dev, start, len)
      → IsConsistent (with_linear s name id n dev start vg)
  linear-IsConsistent s name id n vg free dev start len h searched found =
      let (fm, done, all) = free_areas-HavePvs vg h in
      let same_fm : fm ≡ free = cc in
      let has = find_contig-Has vg free n dev start len (rw same_fm at all) found in
      AreConsistent-insert_lv vg.pvs vg.lvs h name (new_lv s name id (linear_segment dev start n))
        (λ e. linear-stands vg dev e s name id start n has)

  -- If byteorder is little-endian, the group is consistent and has no logical volume `name`, one of
  -- its free areas has `n` extents or more, the identifier is made, the device mapper sets up the new
  -- device, and the physical volumes can be committed to with texts of at most `limit` bytes, as the
  -- one of the group with the new volume is, which can be printed, then `lv_create_linear` succeeds: it
  -- puts the volume on a free area that is long enough, the new group's map is read from every device,
  -- the new group is consistent, and its volumes can be committed to as before.
  pub lv_create_linear-ok :
      (s : System D) (name id dm_name : Bytes) (n limit : ℕ) (vg : Vg D) (free : BTreeMap D Areas)
      (dev : D) (start len : ℕ) (targets : List Target) (devices : Devices)
      → IsLittleEndian s.crates
      → IsConsistent vg
      → contains_key name vg.lvs ≡ false
      → free_areas vg ≡ ok free
      → IsArea free dev start len
      → n ≤ len
      → make_uuid s.simple ≡ ok id
      → s.dm_new ≡ ok tt
      → s.dm_name (doubled_hyphens vg.name ++ (bytes "-" ++ doubled_hyphens name)) ≡ ok dm_name
      → ((table : List (TargetLine D)) → s.linear_setup dm_name table ≡ ok tt)
      → CanCommit s limit (values vg.pvs) targets devices
      → ((dev2 : D) (start2 len2 : ℕ) (map : TextMap)
          → find_contig n free none ≡ some (dev2, start2, len2)
          → Text.to_textmap s.to_u64 (with_linear s name id n dev2 start2 vg) ≡ ok map
          → IsPrintable (disk_map s vg.name map))
      → ((dev2 : D) (start2 len2 : ℕ) (map : TextMap) (text : Bytes)
          → find_contig n free none ≡ some (dev2, start2, len2)
          → Text.to_textmap s.to_u64 (with_linear s name id n dev2 start2 vg) ≡ ok map
          → textmap_to_buf (disk_map s vg.name map) ≡ ok text
          → length text ≤ limit)
      → (dev2 : D) × (start2 len2 : ℕ) × (map : TextMap) × (devices2 : Devices) × (n ≤ len2)
        × IsArea free dev2 start2 len2
        × (lv_create_linear s name n vg devices
            ≡ ok (with_linear s name id n dev2 start2 vg, devices2))
        × (Text.to_textmap s.to_u64 (with_linear s name id n dev2 start2 vg) ≡ ok map)
        × AreWritten s (disk_map s vg.name map) targets devices2
        × IsConsistent (with_linear s name id n dev2 start2 vg)
        × CanCommit s limit (values vg.pvs) targets devices2
  lv_create_linear-ok s name id dm_name n limit vg free dev start len targets devices le h new
        searched area fits made dm named set can prints short =
      let ((dev2, start2, len2), found) = find_contig-some n free dev start len area fits in
      let (fits2, area2) = find_contig-fits n free dev2 start2 len2 found in
      let lv = new_lv s name id (linear_segment dev2 start2 n) in
      let consistent : IsConsistent (with_linear s name id n dev2 start2 vg) =
        linear-IsConsistent s name id n vg free dev2 start2 len2 h searched found in
      let (map, mapped) =
        to_textmap-total s.to_u64 (with_linear s name id n dev2 start2 vg) consistent in
      let printable = prints dev2 start2 len2 map found mapped in
      let (text, printed, _, _) =
        buf_to_textmap-textmap_to_buf (disk_map s vg.name map) printable in
      let (devices2, done, written, again) =
        commit-CanCommit s limit (record vg { lvs = insert name lv vg.lvs }) map text targets
          devices le mapped printable printed (short dev2 start2 len2 map text found mapped printed)
          can in
      (
        dev2,
        start2,
        len2,
        map,
        devices2,
        fits2,
        area2,
        lv_create_linear-commit s name id n vg free dev2 start2 len2 devices new searched found made
            (set_up-ok s (doubled_hyphens vg.name ++ (bytes "-" ++ doubled_hyphens name)) dm_name
              dev2 start2 len2 dm named set)
            done,
        mapped,
        written,
        consistent,
        again,
      )
