-- ===== src/Tests.antt =====
-- The development at concrete inputs.
mod Binary
mod Hex
mod Lines
mod Patch
mod Json
mod Settings
mod Caller
mod Executor
mod Fs
mod Actions
mod Transfer
mod Terminals
mod Mcp
