-- ===== src/Tests.antt =====
-- Concrete runs of the models, and the theorems applied to them.
mod Rounds
mod Compactions
mod Engines
mod Stamps
mod Commands
mod Stores
mod Nodes
mod Sets
mod Lists
mod Strings
