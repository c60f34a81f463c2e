-- ===== src/Examples.antt =====
-- The theorems at concrete inputs, and tests.
mod Channels
mod Contexts
mod Counters
mod Daemons
mod Lists
mod Memories
mod Monitors
mod Numbers
mod Pools
mod Programs
mod Schedulers
mod Servers
mod Streams
mod Synchs
mod Threads
