-- ===== src/Tests.antt =====
-- Concrete runs of the model, on a concrete instance of the crates that it takes as a parameter.
mod Sample
mod Data
mod Routes
mod Auctions
mod Nodes
mod Messages
mod Remote
mod Sessions
mod Joining
mod Starting
