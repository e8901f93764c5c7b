-- ===== src/Tests.antt =====
-- Runs at concrete inputs, and each theorem of the development at an input that meets its hypotheses.
mod Loads
mod Tables
mod Values
mod Charts
mod Markups
mod Servers
