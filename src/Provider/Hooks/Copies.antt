-- ===== src/Provider/Hooks/Copies.antt =====
-- x
