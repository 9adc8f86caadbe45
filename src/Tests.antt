-- ===== src/Tests.antt =====
-- Concrete inputs of the services and the theorems at them.
mod Codec
mod Starting
mod Journeys
mod Sessions
mod Demo
mod Orders
mod Relays
mod Riders
mod Pushing
mod Gates
