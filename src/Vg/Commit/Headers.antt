-- ===== src/Vg/Commit/Headers.antt =====
-- The headers of the physical volumes stand in the first sectors of their devices, which a `commit`
-- of src/vg.rs leaves alone.
use melvin.Prelude.{
  ◌≤◌, ◌≡◌, refl, sym, ap, ◌∙◌, ◌∷◌, [], ◌++◌, List, some, false, Bytes, same, same_iff, ok,
  bind-inv, arith, inl, inr, Bool-cases,
}
use melvin.BTree
use melvin.BTree.{Ord, bytes_ord, values}
use melvin.Types.{Pv, Vg}
use melvin.Crates.{Crates}
use melvin.Disk.{Disk, Devices, open_file}
use melvin.Disk.Laws.{read_into-zeros}
use melvin.PvLabel.Areas.{PvArea}
use melvin.PvLabel.Header.{find_on, find_in_dev}
use melvin.PvLabel.Mda.Text.{write_areas, write_metadata}
use melvin.PvLabel.Mda.Metadata.{IsApart, Agree, AreReady, write_areas-ready}
use melvin.PvLabel.Mda.Devices.{open_file-insert}
use melvin.Parser.TextMap.{TextMap}
use melvin.Parser.Printer.{textmap_to_buf}
use melvin.Vg.System.{System}
use melvin.Vg.Text
use melvin.Vg.Commit.{disk_map, commit_pv, commit_pvs, next_seqno, commit}
use melvin.Vg.Commit.RoundTrip.{
  Target, IsTarget, AreTargets, AreTargets-elsewhere, write_metadata-elsewhere,
}

-- The sectors that `find_in_dev` reads.
abbrev pub front : PvArea
front = record { offset = 0; size = 2048 }

find_on-front :
    (c : Crates) (path : Bytes) (d d2 : Disk)
    → 2048 ≤ d.size
    → Agree front d d2
    → find_on c d2 path ≡ find_on c d path
unfolding find_on
find_on-front c path d d2 long (same_size, agree) =
    rw
      (
        read_into-zeros d2 0 2048 (rw same_size long),
        read_into-zeros d 0 2048 long,
        agree 0 2048 (omega arith) (omega arith),
      )
      refl

long_enough :
    (c : Crates) (text : Bytes) (area : PvArea) (areas : List PvArea) (d : Disk)
    → AreReady c text (area ∷ areas) d
    → IsApart front (area ∷ areas)
    → 2048 ≤ d.size
long_enough c text area areas d (ready, _) (inl h, _) =
    let inside = ready.placed.inside in omega arith
long_enough c text area areas d (ready, _) (inr h, _) =
    let roomy = ready.placed.roomy in absurd (omega arith)

-- The areas of every target stand behind the first sectors.
abbrev pub AreBehind : List Target → Type 0
AreBehind [] = Unit
AreBehind (t ∷ targets) = IsApart front (t.area ∷ t.areas) × AreBehind targets

module _ {D : Type 0} (s : System D) where
  -- What a write to a target does.
  pub write_metadata-inv :
      (map : TextMap) (text : Bytes) (pv : Pv D) (t : Target) (devices devices2 : Devices)
      → textmap_to_buf map ≡ ok text
      → (h : IsTarget s text pv t devices)
      → write_metadata s.crates t.path (t.area ∷ t.areas) map devices ≡ ok devices2
      → (d2 : Disk) × (write_areas s.crates (t.area ∷ t.areas) (text ++ 0 ∷ []) h.d ≡ ok d2)
        × (open_file t.path devices2 ≡ ok d2)
  unfolding write_metadata
  write_metadata-inv map text pv t devices devices2 printed h written =
      let opened = h.opened in
      let (f, e1, h1) = bind-inv (open_file t.path devices) _ devices2 written in
      let (buf, e2, h2) = bind-inv (textmap_to_buf map) _ devices2 h1 in
      let (f1, e3, h3) =
        bind-inv (write_areas s.crates (t.area ∷ t.areas) (buf ++ 0 ∷ []) f) _ devices2 h2 in
      let same_disk : f ≡ h.d = cc in
      let same_text : buf ≡ text = cc in
      let same_devices : BTree.insert t.path f1 devices ≡ devices2 = cc in
      (f1, cc, ap (open_file t.path) (sym same_devices) ∙ open_file-insert t.path f1 devices)

  write_metadata_headers :
      (map : TextMap) (text : Bytes) (pv : Pv D) (t : Target) (devices devices2 : Devices)
      → textmap_to_buf map ≡ ok text
      → IsTarget s text pv t devices
      → IsApart front (t.area ∷ t.areas)
      → write_metadata s.crates t.path (t.area ∷ t.areas) map devices ≡ ok devices2
      → find_in_dev s.crates t.path devices2 ≡ find_in_dev s.crates t.path devices
  unfolding find_in_dev
  write_metadata_headers map text pv t devices devices2 printed h behind written =
      let (f1, done, opened2) =
        write_metadata-inv map text pv t devices devices2 printed h written in
      let (d2, e, agree) =
        write_areas-ready s.crates (text ++ 0 ∷ []) (t.area ∷ t.areas) h.d h.ready h.apart in
      let same_disk : d2 ≡ f1 = cc in
      let kept =
        find_on-front s.crates t.path h.d f1
          (long_enough s.crates (text ++ 0 ∷ []) t.area t.areas h.d h.ready behind)
          (rw same_disk at (agree front behind)) in
      rw (opened2, h.opened) kept

  module _ (map : TextMap) (text : Bytes) (printed : textmap_to_buf map ≡ ok text) where
    pub commit_pv_headers :
        (p : Bytes) (pv : Pv D) (t : Target) (devices devices2 : Devices)
        → IsTarget s text pv t devices
        → IsApart front (t.area ∷ t.areas)
        → commit_pv s map (some t.path) devices ≡ ok devices2
        → (find_in_dev s.crates p devices2 ≡ find_in_dev s.crates p devices)
          × ((other : Bytes)
              → same other t.path ≡ false
              → open_file other devices2 ≡ open_file other devices)
    unfolding commit_pv find_in_dev
    commit_pv_headers p pv t devices devices2 h behind done =
        let written : write_metadata s.crates t.path (t.area ∷ t.areas) map devices ≡ ok devices2 =
          rw (h.header, h.at_path, h.with_areas) at done in
        let elsewhere = λ (other : Bytes).
          write_metadata-elsewhere s t.path other (t.area ∷ t.areas) map devices devices2 written in
        (
          elim (Bool-cases (same p t.path)) [
            | inl same_path ↦
                rw ((same_iff p t.path).0 same_path)
                  (write_metadata_headers map text pv t devices devices2 printed h behind written)
            | inr other ↦ rw (elsewhere p other) refl
          ],
          elsewhere,
        )

    commit_pvs_headers :
        (p : Bytes) (pvs : List (Pv D)) (targets : List Target) (devices devices2 : Devices)
        → AreTargets s text pvs targets devices
        → AreBehind targets
        → commit_pvs s map pvs devices ≡ ok devices2
        → find_in_dev s.crates p devices2 ≡ find_in_dev s.crates p devices
    unfolding commit_pvs
    commit_pvs_headers p [] [] devices devices2 hs bs done = ap (find_in_dev s.crates p) cc
    commit_pvs_headers p [] (t ∷ targets) devices devices2 hs bs done = absurd hs
    commit_pvs_headers p (pv ∷ pvs) [] devices devices2 hs bs done = absurd hs
    commit_pvs_headers p (pv ∷ pvs) (t ∷ targets) devices devices2 (h, new, hs) (behind, bs) done =
        let (devices1, e1, e2) =
          bind-inv (commit_pv s map (some t.path) devices) _ devices2 (rw h.named at done) in
        let (kept, elsewhere) = commit_pv_headers p pv t devices devices1 h behind e1 in
        commit_pvs_headers p pvs targets devices1 devices2
          (AreTargets-elsewhere s text t.path pvs targets devices devices1 elsewhere new hs) bs e2
        ∙ kept

-- A commit to its targets leaves every header where it was.
pub commit_headers :
    {D : Type 0} ⦃o : Ord D⦄ (s : System D) (p : Bytes) (vg vg2 : Vg D) (map : TextMap)
    (text : Bytes) (targets : List Target) (devices devices2 : Devices)
    → Text.to_textmap s.to_u64 (next_seqno vg) ≡ ok map
    → textmap_to_buf (disk_map s vg.name map) ≡ ok text
    → AreTargets s text (values vg.pvs) targets devices
    → AreBehind targets
    → commit s vg devices ≡ ok (vg2, devices2)
    → find_in_dev s.crates p devices2 ≡ find_in_dev s.crates p devices
unfolding commit
commit_headers s p vg vg2 map text targets devices devices2 e printed hs bs done =
    let (devices1, e1, e2) =
      bind-inv (commit_pvs s (disk_map s vg.name map) (values vg.pvs) devices) _ (vg2, devices2)
        (rw e at done) in
    let same_devices : devices1 ≡ devices2 = cc in
    commit_pvs_headers s (disk_map s vg.name map) text printed p (values vg.pvs) targets devices
      devices2 hs bs (rw same_devices at e1)
