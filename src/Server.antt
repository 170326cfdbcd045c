-- ===== src/Server.antt =====
-- src/agent/server.hpp and server.cpp: the agent that serves one directory tree. The state of a
-- session is the file system and the channel; `RootServer` keeps its options, the generation, the
-- ignore rules and the coalescer.
pub mod Resolve
pub mod Retry
pub mod Texts
pub mod Files
pub mod Reads
pub mod Session
pub mod Flush
pub mod Snapshots
