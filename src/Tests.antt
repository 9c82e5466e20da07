-- ===== src/Tests.antt =====
-- Runs of the modelled code on small inputs, and the theorems applied to them.
mod Replicas
mod Votes
mod Views
mod Chain
mod Protocol
mod Store
mod Pool
mod Variant
mod Pruning
mod Network
mod Links
