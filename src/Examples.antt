-- ===== src/Examples.antt =====
-- Concrete runs, and the theorems applied to them.
mod Wire
mod Names
mod Batches
mod Trees
mod Tables
mod Rules
mod Frames
mod Agent
mod Sessions
mod Scans
mod Caches
mod Mirrors
mod Requests
mod Connections
