-- ===== src/Tests/Errors.antt =====
-- The error codes.
