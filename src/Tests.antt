-- ===== src/Tests.antt =====
-- Concrete instances of what the extension relies on, and runs of the theorems at them.
mod Codec
mod Memory
mod Values
mod Requests
mod Replies
mod Updates
mod Hashes
mod Discovery
mod Wrappers
mod Huge
mod Tables
mod Streams
mod Connections
mod Receiving
mod Exchanges
mod Refusals
mod Lookups
mod Objects
