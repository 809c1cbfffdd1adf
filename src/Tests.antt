-- ===== src/Tests.antt =====
-- Examples: the theorems on concrete requests, and the host they run on.
mod Arithmetic
mod Hosts
mod Laws
mod Cases
mod Packets
mod Storage
mod Workers
mod Loop
mod Announces
mod Services
mod Histories
mod Starts
mod Races
