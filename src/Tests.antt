-- ===== src/Tests.antt =====
-- Small concrete states, and the theorems of the library applied to them.
mod Queues
mod Kernels
mod Locks
mod Tasks
mod Pages
mod Clocks
mod Copies
mod Numbers
mod Heaps
mod Descriptors
mod Directories
mod Volumes
mod Paths
mod Calls
mod Disks
mod Processes
mod Programs
mod Forks
mod Mounts
mod Switches
