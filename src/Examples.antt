-- ===== src/Examples.antt =====
-- Concrete inputs at which the theorems apply, and tests of the definitions.
mod Inference
mod Numbers
mod Calls
mod Columns
mod Flow
mod Used
mod Lexing
mod Passing
mod Queue
mod Records
mod Tables
mod Texts
