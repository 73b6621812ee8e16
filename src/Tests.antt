-- ===== src/Tests.antt =====
-- Runs of the code, and the theorems at concrete data, over a store in memory.
mod Memory
mod Gc
mod Complete
mod Puller
mod Creator
mod Files
mod Store
mod Dependencies
mod Namespacer
mod Fetcher
mod Delete
mod VolumeMeta
mod Other
mod Btrfs
mod Disk
mod Unpack
mod Userns
mod Source
mod Command
