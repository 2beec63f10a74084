-- ===== src/Telnet/Csi/Tests.antt =====
-- A run of telnet/csi.go.
