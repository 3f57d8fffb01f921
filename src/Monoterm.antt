-- ===== src/Monoterm.antt =====
-- source/monoterm: the monitor's terminal.
pub mod Editor
pub mod Commands
pub mod Input
