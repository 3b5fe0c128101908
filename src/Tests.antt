-- ===== src/Tests.antt =====
-- The theorems at concrete inputs, and runs of the code on concrete inputs.
mod Data
mod Nodes
mod Pairs
mod Threads
mod Connections
mod Objects
mod Wire
mod Processes
mod PairThreads
mod Callers
mod Structs
mod Initializes
mod Screens
mod Twins
mod Events
mod Rounds
