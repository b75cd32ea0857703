-- ===== src/Tests.antt =====
-- Concrete runs: the theorems at inputs where their conditions hold.
mod Admit
mod Rings
mod Reports
mod Strings
mod Shares
mod Codecs
mod Wires
mod Hosts
mod Lives
mod Texts
mod Calls
mod Addresses
mod Flights
