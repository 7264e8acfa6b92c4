-- ===== src/Examples.antt =====
-- The theorems at inputs, with tests of the definitions.
mod Server
mod Packed
mod Site
mod Texts
mod Uris
