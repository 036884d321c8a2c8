-- ===== src/Names/Tests.antt =====
-- A run of the domain check.
