-- ===== src/Tests.antt =====
-- The theorems at concrete inputs. smoltcp is stood in for by a few functions on the header bytes.
pub mod Net
pub mod Fragments
mod Datagrams
pub mod Frames
mod Identifiers
pub mod Device
mod Loops
mod Replacement
mod Drivers
mod Queues
mod Receiving
mod Ping
pub mod Calls
mod Between
pub mod Passing
mod Samples
mod Reopen
pub mod InOrder
mod Checksum
mod Linked
pub mod Sends
mod Filtered
mod Reassembled
pub mod Slots
