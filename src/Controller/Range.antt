-- ===== src/Controller/Range.antt =====
-- Crate numbers past the array `xl3s`.
