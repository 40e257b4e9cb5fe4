-- ===== src/Tests.antt =====
-- Concrete packages, runs of the model on them, and each theorem at a concrete input.
pub mod Sample
mod Suite
mod Registry
mod BoundedSet
mod Jsonrpc
mod Message
mod Proposal
mod Zmq
mod Connection
mod Server
