-- ===== src/Examples.antt =====
-- Theorems applied to requests, rules and lists that are written out, over a small implementation of
-- the external operations.
mod Toy
mod Edge
mod Engine
mod Gate
mod Lists
mod Imports
mod Running
