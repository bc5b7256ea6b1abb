-- ===== src/Tests.antt =====
-- Runs of the models at concrete inputs, and the theorems applied to them.
mod Values
mod Segments
mod Codec
mod Storage
mod Routing
mod Oversight
mod Mesh
mod Radio
mod Hub
mod Sharing
mod Space
mod Links
mod Ether
