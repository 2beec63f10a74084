-- ===== src/Mob.antt =====
-- The mobs: the search for rooms and ways of internal/mob (Bfs).
pub mod Bfs
