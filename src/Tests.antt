-- ===== src/Tests.antt =====
-- Runs of the theorems on concrete inputs.
mod Wire
mod Endpoint
mod Dance
mod Identity
mod Pump
mod Emitter
mod Bind
mod Toy
mod Streams
mod Pool
