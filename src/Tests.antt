-- ===== src/Tests.antt =====
-- The theorems at concrete inputs.
mod Data
mod Merges
mod Signatures
mod Replicas
mod Stores
mod Payloads
mod Conflicts
mod States
mod Incrementals
mod Lifecycles
mod Finds
