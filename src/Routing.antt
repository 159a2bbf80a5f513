-- ===== src/Routing.antt =====
-- routing/: the k-buckets and the routing table.
pub mod KBucket
pub mod Table
pub mod Index
pub mod Evict
pub mod Kept
pub mod Insert
pub mod FindId
pub mod Find
pub mod Closest
