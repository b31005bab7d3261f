-- ===== src/Vg/Extents.antt =====
-- The extents of a volume that `pv_add` of src/vg.rs adds.
