-- ===== src/Tests.antt =====
-- Runs of the models on concrete inputs, and the theorems at such inputs.
mod Proto
mod Runtime
mod Permits
mod Receive
mod Payload
mod Shared
mod Writer
mod Delivery
mod Stream
mod Tasks
mod Endpoint
