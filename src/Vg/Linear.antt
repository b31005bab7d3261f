-- ===== src/Vg/Linear.antt =====
-- `lv_create_linear` of src/vg.rs, and `lv_remove` after it.
use melvin.Prelude.{
  ℕ, ◌≤◌, ◌≡◌, refl, sym, ap, ◌∙◌, true, false, [], ◌∷◌, ◌++◌, none, some, Bytes, bytes, same,
  same_refl, arith, Option-cases, inl, inr, ok, ok_or, bind-inv, ok_or-inv, no_contiguous_area,
  lv_not_found,
}
use melvin.BTree.{Ord, BTreeMap, bytes_ord, insert, remove, get, contains_key}
use melvin.BTree.Laws.{get-insert, contains_key-get}
use melvin.Types.{Vg}
use melvin.Disk.{Devices}
use melvin.Util.{make_uuid}
use melvin.Vg.{Areas, free_areas, find_contig}
use melvin.Vg.Search.{IsArea, find_contig-fits}
use melvin.Vg.System.{System}
use melvin.Vg.Commit.{next_seqno}
use melvin.Vg.Logical.{lv_create_linear, lv_remove, new_lv, linear_segment, set_up, doubled_hyphens}
use melvin.Vg.Preserved.{refusal-inv, commit-next}

module _ {V : Type 0} where
  contains_key-missing :
      (k : Bytes) (m : BTreeMap Bytes V) → contains_key k m ≡ false → get k m ≡ none
  contains_key-missing k m h = elim (Option-cases (get k m)) [
    | inl missing ↦ missing
    | inr (v, there) ↦ let e = contains_key-get k m in ground arith
  ]

  remove-insert :
      (k : Bytes) (v : V) (m : BTreeMap Bytes V)
      → contains_key k m ≡ false
      → remove k (insert k v m) ≡ m
  unfolding remove insert contains_key
  remove-insert k v [] h = rw (same_refl k) refl
  remove-insert k v ((j, w) ∷ m) h = ground (arith, same_refl k, remove-insert k v m)

module _ {D : Type 0} ⦃o : Ord D⦄ where
  -- What `lv_create_linear` found, and the group that it returns.
  record Created (s : System D) (name : Bytes) (n : ℕ) (vg vg2 : Vg D) : Type 0 where
    free : BTreeMap D Areas
    dev : D
    start : ℕ
    len : ℕ
    id : Bytes
    searched : free_areas vg ≡ ok free
    found : find_contig n free none ≡ some (dev, start, len)
    new : contains_key name vg.lvs ≡ false
    result :
        next_seqno
          (record vg { lvs = insert name (new_lv s name id (linear_segment dev start n)) vg.lvs })
        ≡ vg2

  lv_create_linear-inv :
      (s : System D) (name : Bytes) (n : ℕ) (vg vg2 : Vg D) (devices devices2 : Devices)
      → lv_create_linear s name n vg devices ≡ ok (vg2, devices2)
      → Created s name n vg vg2
  unfolding lv_create_linear
  lv_create_linear-inv s name n vg vg2 devices devices2 h =
      let r : Vg D × Devices = (vg2, devices2) in
      let (new, h1) = refusal-inv (contains_key name vg.lvs) _ _ r h in
      let (fm, e1, h2) = bind-inv (free_areas vg) _ r h1 in
      let ((dev, start, len), e2, h3) =
        bind-inv (ok_or (find_contig n fm none) no_contiguous_area) _ r h2 in
      let (id, _, h4) = bind-inv (make_uuid s.simple) _ r h3 in
      let (_, _, h5) =
        bind-inv
          (set_up s (doubled_hyphens vg.name ++ (bytes "-" ++ doubled_hyphens name)) dev start len)
          _ r h4 in
      record {
        free = fm;
        dev = dev;
        start = start;
        len = len;
        id = id;
        searched = e1;
        found = ok_or-inv _ _ _ e2;
        new = new;
        result =
            commit-next s
              (record vg {
                lvs = insert name (new_lv s name id (linear_segment dev start n)) vg.lvs;
              })
              vg2 devices devices2 h5;
      }

  -- If `lv_create_linear` succeeds, `free_areas` reported an area that is long enough, and the new volume starts where it starts; the name
  -- was new, and the other volumes, the physical volumes and the name of the group stay.
  pub lv_create_linear-get :
      (s : System D) (name : Bytes) (n : ℕ) (vg vg2 : Vg D) (devices devices2 : Devices)
      → lv_create_linear s name n vg devices ≡ ok (vg2, devices2)
      → (free : BTreeMap D Areas) × (dev : D) × (start len : ℕ) × (id : Bytes) × (free_areas vg
          ≡ ok free)
        × IsArea free dev start len
        × (n ≤ len)
        × (get name vg.lvs ≡ none)
        × (get name vg2.lvs ≡ some (new_lv s name id (linear_segment dev start n)))
        × ((other : Bytes) → same other name ≡ false → get other vg2.lvs ≡ get other vg.lvs)
        × (vg2.pvs ≡ vg.pvs)
        × (vg2.name ≡ vg.name)
  lv_create_linear-get s name n vg vg2 devices devices2 h =
      let c = lv_create_linear-inv s name n vg vg2 devices devices2 h in
      let lv = new_lv s name c.id (linear_segment c.dev c.start n) in
      let (fits, area) = find_contig-fits n c.free c.dev c.start c.len c.found in
      let lvs2 : vg2.lvs ≡ insert name lv vg.lvs = sym (ap (λ (v : Vg D). v.lvs) c.result) in
      (
        c.free,
        c.dev,
        c.start,
        c.len,
        c.id,
        c.searched,
        area,
        fits,
        contains_key-missing name vg.lvs c.new,
        rw lvs2 (get-insert name name lv vg.lvs ∙ rw (same_refl name) refl),
        λ other ne. rw lvs2 (get-insert other name lv vg.lvs ∙ rw ne refl),
        sym (ap (λ (v : Vg D). v.pvs) c.result),
        sym (ap (λ (v : Vg D). v.name) c.result),
      )

  -- Removing the volume that was just created gives the group its volumes back, in the generation after the next.
  pub lv_remove-lv_create_linear :
      (s s2 : System D) (name : Bytes) (n : ℕ) (vg vg2 vg3 : Vg D)
      (devices devices2 devices3 devices4 : Devices)
      → lv_create_linear s name n vg devices ≡ ok (vg2, devices2)
      → lv_remove s2 name vg2 devices3 ≡ ok (vg3, devices4)
      → vg3 ≡ next_seqno (next_seqno vg)
  unfolding lv_remove
  lv_remove-lv_create_linear s s2 name n vg vg2 vg3 devices devices2 devices3 devices4 h g =
      let c = lv_create_linear-inv s name n vg vg2 devices devices2 h in
      let r : Vg D × Devices = (vg3, devices4) in
      let (lv, _, g1) = bind-inv (ok_or (get name vg2.lvs) lv_not_found) _ r g in
      let (_, _, g2) = bind-inv s2.dm_new _ r g1 in
      let (dm_name, _, g3) = bind-inv (s2.dm_name lv.name) _ r g2 in
      let (_, _, g4) = bind-inv (s2.device_suspend dm_name true) _ r g3 in
      let (_, _, g5) = bind-inv (s2.device_remove dm_name) _ r g4 in
      let after =
        commit-next s2 (record vg2 { lvs = remove name vg2.lvs }) vg3 devices3 devices4 g5 in
      sym after
      ∙ sym (ap (λ (v : Vg D). next_seqno (record v { lvs = remove name v.lvs })) c.result)
      ∙ ap (λ lvs. next_seqno (next_seqno (record vg { lvs = lvs })))
          (remove-insert name (new_lv s name c.id (linear_segment c.dev c.start n)) vg.lvs c.new)
