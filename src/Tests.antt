-- ===== src/Tests.antt =====
-- Runs of the model at concrete inputs.
mod Network
mod Names
mod Replies
mod Flights
mod Requests
mod Relay
mod Exchange
mod Lines
mod Heads
mod Turns
mod Secure
mod Mapped
mod Codec
mod Certificates
mod Fields
mod Stored
mod Subjects
mod Proxy
mod Bodies
