-- ===== src/Progression.antt =====
-- internal/progression: the curve of experience and levels (Curve), and the gains of a level
-- (LevelUp).
pub mod Curve
pub mod LevelUp
