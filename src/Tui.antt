-- ===== src/Tui.antt =====
-- internal/tui: the terminal interface of the operators.
pub mod Rows
pub mod Menu
pub mod Model
pub mod Steps
pub mod Browse
pub mod Entry
pub mod Update
pub mod View
pub mod Intact
pub mod Confirmed
pub mod Service
pub mod Kept
