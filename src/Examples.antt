-- ===== src/Examples.antt =====
-- Applications of the theorems to concrete inputs.
mod Concrete
mod Codes
mod Peers
mod Batches
mod Blocks
mod Limits
mod Network
mod Data
mod Requests
mod Retries
mod Onion
mod Channels
mod Routes
mod Servers
