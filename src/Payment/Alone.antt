-- ===== src/Payment/Alone.antt =====
-- The steps of Payment/Clients against application/service.go's calls as a whole.
