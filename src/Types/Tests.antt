-- ===== src/Types/Tests.antt =====
-- The power-of-two test at a concrete number.
