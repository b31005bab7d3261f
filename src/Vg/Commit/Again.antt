-- ===== src/Vg/Commit/Again.antt =====
-- Commits of src/vg.rs one after the other: targets stay targets.
use melvin.Prelude.{
  ℕ, ◌+◌, ◌≤◌, ◌<◌, ◌≡◌, ap, ◌∙◌, ◌∷◌, [], ◌++◌, List, some, same, false, Bytes, length,
  length-append, ok, bind-inv, arith,
}
use melvin.BTree.{Ord, bytes_ord, values}
use melvin.Types.{Pv, Vg}
use melvin.Crates.{IsLittleEndian}
use melvin.Disk.{Devices, open_file}
use melvin.PvLabel.Areas.{PvArea}
use melvin.PvLabel.Mda.Text.{write_metadata}
use melvin.PvLabel.Mda.Metadata.{IsApart}
use melvin.PvLabel.Mda.Again.{HaveRoom, AreReady-again}
use melvin.Parser.TextMap.{TextMap}
use melvin.Parser.Printer.{textmap_to_buf}
use melvin.Parser.Printable.{IsPrintable}
use melvin.Vg.System.{System}
use melvin.Vg.Text
use melvin.Vg.Commit.{disk_map, commit_pv, commit_pvs, next_seqno, commit}
use melvin.Vg.Commit.RoundTrip.{
  Target, IsTarget, IsNewPath, AreTargets, AreTargets-elsewhere, IsTarget-elsewhere, AreWritten,
  commit_round_trip,
}
use melvin.Vg.Commit.Headers.{front, AreBehind, write_metadata-inv, commit_pv_headers}

-- The areas of the targets, with room for the texts.
abbrev TargetsHaveRoom : Bytes → Bytes → List Target → Type 0
TargetsHaveRoom text text2 [] = Unit
TargetsHaveRoom text text2 (t ∷ targets) =
    HaveRoom (text ++ 0 ∷ []) (text2 ++ 0 ∷ []) (t.area ∷ t.areas)
    × TargetsHaveRoom text text2 targets

module _ {D : Type 0} (s : System D) (le : IsLittleEndian s.crates) (map : TextMap)
    (text text2 : Bytes) (printed : textmap_to_buf map ≡ ok text) where
  IsTarget-again :
      (pv : Pv D) (t : Target) (devices devices2 : Devices)
      → HaveRoom (text ++ 0 ∷ []) (text2 ++ 0 ∷ []) (t.area ∷ t.areas)
      → IsApart front (t.area ∷ t.areas)
      → IsTarget s text pv t devices
      → commit_pv s map (some t.path) devices ≡ ok devices2
      → IsTarget s text2 pv t devices2
  unfolding commit_pv
  IsTarget-again pv t devices devices2 room behind h done =
      let written : write_metadata s.crates t.path (t.area ∷ t.areas) map devices ≡ ok devices2 =
        rw (h.header, h.at_path, h.with_areas) at done in
      let (d2, areas_written, opened2) =
        write_metadata-inv s map text pv t devices devices2 printed h written in
      let (kept, _) =
        commit_pv_headers s map text printed t.path pv t devices devices2 h behind done in
      record {
        named = h.named;
        pvh = h.pvh;
        header = kept ∙ h.header;
        at_path = h.at_path;
        with_areas = h.with_areas;
        d = d2;
        opened = opened2;
        ready =
            AreReady-again s.crates le (text ++ 0 ∷ []) (text2 ++ 0 ∷ []) (t.area ∷ t.areas) h.d d2
              room h.ready h.apart areas_written;
        apart = h.apart;
      }

  -- The commit to the first volume, and to the rest.
  commit_pvs-inv :
      (pv : Pv D) (pvs : List (Pv D)) (t : Target) (targets : List Target)
      (devices devices2 : Devices)
      → AreBehind (t ∷ targets)
      → AreTargets s text (pv ∷ pvs) (t ∷ targets) devices
      → commit_pvs s map (pv ∷ pvs) devices ≡ ok devices2
      → (devices1 : Devices) × (commit_pv s map (some t.path) devices ≡ ok devices1)
        × (commit_pvs s map pvs devices1 ≡ ok devices2)
        × AreTargets s text pvs targets devices1
        × ((other : Bytes)
            → same other t.path ≡ false
            → open_file other devices1 ≡ open_file other devices)
  unfolding commit_pvs
  commit_pvs-inv pv pvs t targets devices devices2 (behind, bs) (h, new, hs) done =
      let (devices1, e1, e2) =
        bind-inv (commit_pv s map (some t.path) devices) _ devices2 (rw h.named at done) in
      let (_, elsewhere) =
        commit_pv_headers s map text printed t.path pv t devices devices1 h behind e1 in
      (
        devices1,
        e1,
        e2,
        AreTargets-elsewhere s text t.path pvs targets devices devices1 elsewhere new hs,
        elsewhere,
      )

  commit_pvs-elsewhere :
      (other : Bytes) (pvs : List (Pv D)) (targets : List Target) (devices devices2 : Devices)
      → IsNewPath other targets
      → AreBehind targets
      → AreTargets s text pvs targets devices
      → commit_pvs s map pvs devices ≡ ok devices2
      → open_file other devices2 ≡ open_file other devices
  unfolding commit_pvs
  commit_pvs-elsewhere other [] [] devices devices2 new bs hs done = ap (open_file other) cc
  commit_pvs-elsewhere other [] (t ∷ targets) devices devices2 new bs hs done = absurd hs
  commit_pvs-elsewhere other (pv ∷ pvs) [] devices devices2 new bs hs done = absurd hs
  commit_pvs-elsewhere other (pv ∷ pvs) (t ∷ targets) devices devices2 (_, ne, new) bs hs done =
      let (devices1, _, rest, later, elsewhere) =
        commit_pvs-inv pv pvs t targets devices devices2 bs hs done in
      commit_pvs-elsewhere other pvs targets devices1 devices2 new bs.1 later rest
      ∙ elsewhere other ne

  AreTargets-again :
      (pvs : List (Pv D)) (targets : List Target) (devices devices2 : Devices)
      → TargetsHaveRoom text text2 targets
      → AreBehind targets
      → AreTargets s text pvs targets devices
      → commit_pvs s map pvs devices ≡ ok devices2
      → AreTargets s text2 pvs targets devices2
  AreTargets-again [] [] devices devices2 rooms bs hs done = tt
  AreTargets-again [] (t ∷ targets) devices devices2 rooms bs hs done = absurd hs
  AreTargets-again (pv ∷ pvs) [] devices devices2 rooms bs hs done = absurd hs
  AreTargets-again (pv ∷ pvs) (t ∷ targets) devices devices2 (room, rooms) bs (h, new, hs) done =
      let (devices1, e1, rest, later, _) =
        commit_pvs-inv pv pvs t targets devices devices2 bs (h, new, hs) done in
      (
        IsTarget-elsewhere s text2 pv t devices1 devices2
            (commit_pvs-elsewhere t.path pvs targets devices1 devices2 new bs.1 later rest)
            (IsTarget-again pv t devices devices1 room bs.0 h e1),
        new,
        AreTargets-again pvs targets devices1 devices2 rooms bs.1 later rest,
      )

-- Every area of the targets is longer than a text of `limit` bytes with its null, the header and a
-- sector.
abbrev pub AreLarge : ℕ → List PvArea → Type 0
AreLarge limit [] = Unit
AreLarge limit (a ∷ areas) = (limit + 1024 < a.size) × AreLarge limit areas

abbrev pub TargetsAreLarge : ℕ → List Target → Type 0
TargetsAreLarge limit [] = Unit
TargetsAreLarge limit (t ∷ targets) =
    AreLarge limit (t.area ∷ t.areas) × TargetsAreLarge limit targets

module _ (limit : ℕ) (text text2 : Bytes) (short : length text ≤ limit)
    (short2 : length text2 ≤ limit) where
  areas-HaveRoom :
      (areas : List PvArea)
      → AreLarge limit areas
      → HaveRoom (text ++ 0 ∷ []) (text2 ++ 0 ∷ []) areas
  areas-HaveRoom [] h = tt
  areas-HaveRoom (a ∷ areas) (large, h) = (
    (omega (arith, length-append text (0 ∷ [])), omega (arith, length-append text2 (0 ∷ []))),
    areas-HaveRoom areas h,
  )

  targets-HaveRoom :
      (targets : List Target) → TargetsAreLarge limit targets → TargetsHaveRoom text text2 targets
  targets-HaveRoom [] h = tt
  targets-HaveRoom (t ∷ targets) (large, h) =
      (areas-HaveRoom (t.area ∷ t.areas) large, targets-HaveRoom targets h)

module _ {D : Type 0} ⦃o : Ord D⦄ (s : System D) (limit : ℕ) where
  -- The volumes can be committed to with any text of at most `limit` bytes.
  pub record CanCommit (pvs : List (Pv D)) (targets : List Target) (devices : Devices)
      : Type 0 where
    pub large : TargetsAreLarge limit targets
    pub behind : AreBehind targets
    pub ready : (text : Bytes) → length text ≤ limit → AreTargets s text pvs targets devices

  -- A commit of a short text succeeds, is read from every device, and can be followed by another one.
  pub commit-CanCommit :
      (vg : Vg D) (map : TextMap) (text : Bytes) (targets : List Target) (devices : Devices)
      → IsLittleEndian s.crates
      → Text.to_textmap s.to_u64 (next_seqno vg) ≡ ok map
      → IsPrintable (disk_map s vg.name map)
      → textmap_to_buf (disk_map s vg.name map) ≡ ok text
      → length text ≤ limit
      → CanCommit (values vg.pvs) targets devices
      → (devices2 : Devices) × (commit s vg devices ≡ ok (next_seqno vg, devices2))
        × AreWritten s (disk_map s vg.name map) targets devices2
        × CanCommit (values vg.pvs) targets devices2
  unfolding commit
  commit-CanCommit vg map text targets devices le e printable printed short h =
      let ready = h.ready text short in
      let (devices2, done, written) =
        commit_round_trip s vg map text targets devices le e printable printed ready in
      let (devices1, e1, e2) =
        bind-inv (commit_pvs s (disk_map s vg.name map) (values vg.pvs) devices) _
          (next_seqno vg, devices2) (rw e at done) in
      let same_devices : devices1 ≡ devices2 = cc in
      (
        devices2,
        done,
        written,
        record {
          large = h.large;
          behind = h.behind;
          ready = λ text2 short2.
              AreTargets-again s le (disk_map s vg.name map) text text2 printed (values vg.pvs)
                targets devices devices2
                (targets-HaveRoom limit text text2 short short2 targets h.large) h.behind ready
                (rw same_devices at e1);
        },
      )
