-- ===== src/Tests.antt =====
-- Examples of the theorems at concrete inputs.
mod Platform
mod Wire
mod Walks
mod OnePerson
mod Finds
mod Threads
mod Services
mod Slurps
mod Pools
mod Hosts
mod Prototypes
mod Whole
mod Ports
