-- ===== src/Iomon.antt =====
-- internal/iomon: the progress of a long transfer, from the bytes counted to the line on a terminal.
pub mod Monitor
pub mod Printer
