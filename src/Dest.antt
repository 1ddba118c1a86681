-- ===== src/Dest.antt =====
-- The destination handler, src/cfdppy/handler/dest.py.
pub mod State
pub mod Faults
pub mod Segments
pub mod Receive
pub mod Start
pub mod Machine
pub mod Queue
pub mod Calls
pub mod Mismatch
pub mod Checksum
pub mod Retries
pub mod Guards
pub mod Insertion
pub mod Orphans
pub mod Leftovers
pub mod Inactive
pub mod Reception
pub mod Delivery
pub mod Losses
pub mod Missing
pub mod Properties
pub mod Naks
pub mod Deferred
