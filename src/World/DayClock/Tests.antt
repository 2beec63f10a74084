-- ===== src/World/DayClock/Tests.antt =====
-- Runs of internal/world/dayclock.go, with the day of 1800 ticks that is the default there.
