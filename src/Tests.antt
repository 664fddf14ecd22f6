-- ===== src/Tests.antt =====
-- Concrete runs at which the theorems apply.
mod Queue
mod Requests
mod Slots
mod Task
mod Disk
mod Sync
mod Openers
mod Loop
mod Load
