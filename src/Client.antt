-- ===== src/Client.antt =====
-- src/agent/client.hpp and client.cpp: the client of a served root. The children have the cache of
-- file contents, the mirror of the served tree that invalidations change, and the back-off between two
-- snapshots. Threads, locks and the connection do not show in the model.
pub mod Cache
pub mod Backoff
pub mod Mirror
pub mod Requests
pub mod Connect
