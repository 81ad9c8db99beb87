-- ===== src/Tests.antt =====
-- The theorems at concrete inputs.
mod Starts
mod Strings
mod Queues
mod Pages
mod Paging
mod Locks
mod Processes
mod Traps
mod Disks
mod Images
mod Texts
mod Schedules
mod Boots
mod Drives
mod Mains
