-- ===== src/World.antt =====
-- The world: the day clock (internal/world/dayclock.go) and the derivation of
-- coordinates (internal/world/coords_derive.go).
pub mod DayClock
pub mod Coords
