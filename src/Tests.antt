-- ===== src/Tests.antt =====
-- Runs of the modelled code at concrete inputs.
mod Timer
mod Wire
mod App
mod Shell
mod Clients
mod Diagnostics
mod Report
mod Release
mod Command
mod Storage
