-- ===== src/Examples.antt =====
-- Runs of the definitions on small inputs, and the theorems at them.
mod Utils
mod Txns
mod Databases
mod Launchers
mod Pools
mod Fifo
mod Schedules
mod Copies
mod Processes
mod Monitors
mod Lifetimes
mod Lines
