-- ===== src/Combat.antt =====
-- internal/combat: the experience debt of a death (XpDebt), the swings of one pulse (Iterative) and
-- the queue of corpses that decay (Decay).
pub mod XpDebt
pub mod Refs
pub mod Fight
pub mod Resolution
pub mod Manager
pub mod Iterative
pub mod Decay
