-- ===== src/Tests.antt =====
-- The theorems at concrete inputs, and small runs of the program's functions.
mod Toy
mod Resolving
mod Blocking
mod Deciding
mod Serving
mod Configuring
mod Editing
mod Starting
mod Shared
mod Log
mod Sharing
mod Feeding
mod Running
mod Lying
