-- ===== src/Telnet.antt =====
-- The telnet package: the byte protocol (Iac), escape sequences (Csi), the input history
-- (History), the line under edit (LineEdit), the pager (Pager) and the splitting of a command line
-- (Tokens).
pub mod Iac
pub mod Tokens
pub mod History
pub mod LineEdit
pub mod Pager
pub mod Csi
pub mod Ansi
