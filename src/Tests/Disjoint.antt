-- ===== src/Tests/Disjoint.antt =====
-- A volume that `lv_create_linear` puts beside another one.
use melvin.Prelude.{
  ℕ, ◌+◌, ◌<◌, ◌≤◌, ◌≡◌, ◌==◌, refl, sym, ap, ◌∙◌, true, false, List, [], ◌∷◌, some, none, Bytes,
  bytes, before, same, two64, arith, ok, Bool-cases, inl, inr, from_utf8_lossy, format_u64, pos,
}
use melvin.Prelude
use mathlib.Core.List.{Memᴰ}
use mathlib.Core.List.Memᴰ.{head, tail}
use melvin.BTree.{bytes_ord, insert, get, contains_key, collect}
use melvin.Types.{Pv, Vg}
use melvin.Parser.TextMap
use melvin.Lv
use melvin.Lv.Segments
use melvin.Pv
use melvin.Util.{hyphenate_uuid}
use melvin.Vg.{
  Areas, nat_ord, free_areas, used_areas, add_area, around_used, add_unused, fold_areas,
  find_contig, first_fit,
}
use melvin.Vg.Gaps.{covers, IsLayout}
use melvin.Vg.Text
use melvin.Vg.Commit.{commit, commit_pvs, commit_pv}
use melvin.Vg.Logical.{lv_create_linear, new_lv, linear_segment, set_up}
use melvin.Vg.Used.{IsUsed}
use melvin.Vg.Disjoint.{IsLaidOut, lv_create_linear-disjoint}
use melvin.Vg.Reached.{IsConsistent-Reached}
use melvin.Tests.Groups.{host, uuid, one_volume, with_root}
use melvin.Tests.Created.{with_root-Reached}

abbrev with_home : Vg ℕ
with_home = record with_root {
  seqno = 3;
  lvs =
      (bytes "home", new_lv host (bytes "home") uuid (linear_segment 2049 3 4))
      ∷ (bytes "root", new_lv host (bytes "root") uuid (linear_segment 2049 0 3))
      ∷ [];
}

create_home : lv_create_linear host (bytes "home") 4 with_root [] ≡ ok (with_home, [])
unfolding lv_create_linear free_areas used_areas contains_key around_used find_contig add_unused
    insert hyphenate_uuid set_up commit Text.to_textmap get Text.dev_to_idx collect Lv.to_textmap
    Segments.to_textmap Segments.store_stripes commit_pvs commit_pv Segments.striped_to_textmap
    Segments.used_areas Lv.store_segments Lv.used_areas TextMap.insert format_u64
    melvin.Prelude.as_i64 before same from_utf8_lossy Pv.to_textmap Text.numbered Text.store_lvs
    Text.store_pvs Text.vg_header Text.with_lvs add_area first_fit fold_areas
create_home = refl

-- The extents 0 to 2 are the only ones in use.
used_by_root : (dev first l : ℕ) → IsUsed with_root dev first l → l ≡ 3
unfolding Lv.used_areas Segments.used_areas
used_by_root dev first l (lv, there, at) = elim there [
  | tail never ↦ elim never [ ]
  | head same_lv ↦
      let root = new_lv host (bytes "root") uuid (linear_segment 2049 0 3) in
      let is_root : lv ≡ root = same_lv in
      let area : Memᴰ (dev, first, l) (Lv.used_areas root) = rw is_root at at in
      elim area [ tail never ↦ elim never [ ] | head here ↦ ap (λ (x : ℕ × ℕ × ℕ). x.2) here ]
]

with_root-IsLayout :
    (dev : ℕ) (pv : Pv ℕ) (areas : Areas)
    → get dev with_root.pvs ≡ some pv
    → get dev (used_areas with_root) ≡ some areas
    → IsLayout 0 pv.pe_count areas
      × (pv.pe_count < two64)
      × ((unused : ℕ) × (unused < pv.pe_count) × (covers areas unused ≡ false))
unfolding get used_areas Lv.used_areas Segments.used_areas add_area insert
with_root-IsLayout dev pv areas h g = elim (Bool-cases (dev == 2049)) [
  | inr other ↦ ground arith
  | inl self ↦
      let is_volume : one_volume ≡ pv = ground arith in
      let is_areas : ◌≡◌ {A = Areas} ((0, 3) ∷ []) areas = ground arith in
      rw (sym is_volume, sym is_areas)
        ((omega arith, omega arith, omega arith), omega arith, (5, omega arith, refl))
]

with_root-IsLaidOut : IsLaidOut with_root
with_root-IsLaidOut = record {
  layout = with_root-IsLayout;
  one_length = λ dev first l k h g. used_by_root dev first l h ∙ sym (used_by_root dev first k g);
}

lv_create_linear-disjoint_example :
    (dev : ℕ) × (start : ℕ) × (id : Bytes) × (get (bytes "home") with_home.lvs
      ≡ some (new_lv host (bytes "home") id (linear_segment dev start 4)))
    × ((first l e : ℕ)
        → IsUsed with_root dev first l
        → start ≤ e
        → e < start + 4
        → first ≤ e
        → ¬ (e < first + l))
lv_create_linear-disjoint_example =
    lv_create_linear-disjoint host (bytes "home") 4 with_root with_home [] []
      (IsConsistent-Reached with_root with_root-Reached) with_root-IsLaidOut create_home
