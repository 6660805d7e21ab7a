-- ===== src/Pplme.antt =====
-- src/libpplmeengine/pplme_matching_ppl_provider.cc: the provider that pplmed uses.
pub mod Grid
pub mod Sqiral
pub mod Cells
pub mod Provider
pub mod Find
pub mod Threads
pub mod Matching
pub mod Repository
