-- ===== src/Protocol.antt =====
-- src/core/protocol.hpp and protocol.cpp: the wire protocol between client and agent.
pub mod Writer
pub mod Reader
pub mod Header
pub mod MsgTypes
pub mod Messages
pub mod Requests
pub mod Invalidations
pub mod Bulk
