-- ===== src/Examples.antt =====
-- Runs of the codecs at concrete inputs.
mod Headers
mod Elements
mod Integers
mod Oer
mod Per
