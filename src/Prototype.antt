-- ===== src/Prototype.antt =====
-- src/libpplmeengine/prototype_matching_ppl_provider.cc: the older provider, which searches the
-- cells within a distance.
pub mod Distance
pub mod Grid
pub mod Nearby
pub mod Walks
pub mod Provider
pub mod Find
pub mod Matching
pub mod Repository
