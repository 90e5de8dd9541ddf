-- ===== src/Examples.antt =====
-- Runs of the kernel's code on concrete values, and the theorems applied to them.
mod Cnode
mod Cspace
mod Device
mod Endpoint
mod Frame
mod Segment
mod Tlb
mod Untyped
mod VSpace
mod Thread
mod Identify
mod Interrupts
mod Syscall
mod Table
mod Sync
mod Percore
mod Scheduler
