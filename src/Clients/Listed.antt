-- ===== src/Clients/Listed.antt =====
-- The timeout of a list request.
