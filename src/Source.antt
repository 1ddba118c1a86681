-- ===== src/Source.antt =====
-- The source handler, src/cfdppy/handler/source.py.
pub mod State
pub mod Packets
pub mod Faults
pub mod Send
pub mod Begin
pub mod Machine
pub mod Requests
pub mod Queue
pub mod Insertion
pub mod Calls
pub mod OnNative
pub mod Properties
pub mod Chunks
pub mod Transfer
pub mod Sending
pub mod Answers
pub mod Retries
