-- ===== src/Python.antt =====
-- The values of the language that the tools are written in, and its texts.
pub mod Value
pub mod Text
pub mod Number
