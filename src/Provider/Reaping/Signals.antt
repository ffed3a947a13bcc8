-- ===== src/Provider/Reaping/Signals.antt =====
-- x
