-- ===== src/Lib.antt =====
-- wsldrive: the core of a file-sharing agent and client between WSL and Windows.
--
-- The agent watches a directory tree. Its watcher's events go through the coalescer, which turns a
-- burst into an ordered batch of planned operations; the batch goes over the wire as invalidations,
-- and the client applies them to a directory tree that it holds in memory. The client got that tree
-- as a snapshot over the same wire, after a handshake by tokens, and answers lookups from it. The
-- snapshot comes from a scan of the served tree; reads and mutations of files are requests to the
-- agent, which resolves their paths below its root.
--
-- Prelude: numbers, bits, lists and tests that all parts share.
-- Types: src/core/types.hpp and src/core/error.hpp.
-- Protocol: src/core/protocol.hpp and protocol.cpp. Writer and Reader are the two classes of that
--   name; Header, Messages, Requests, Invalidations and Bulk have the messages, each with its
--   writer and its reader. A reader takes the rest of the input and gives a value and what is left,
--   or an error. Reader.Law states that a reader undoes a writer whatever follows.
-- Channel: src/net/frame_channel.cpp, over a record of the socket's calls.
-- Paths: src/core/path.hpp and path.cpp. A round of a loop takes a byte of the input at least, so its
--   length is fuel enough.
-- WinNames: src/core/win_names.cpp. Unicode: src/core/unicode.cpp.
-- Coalescer: src/core/coalescer.hpp and coalescer.cpp. The pending map is an association list, times
--   are ticks, and a history is a sequence of pushes and takes.
-- Ignore: src/core/ignore.cpp. The glob matcher runs on fuel, a bound on its rounds.
-- Hash: src/core/hash.cpp and src/core/hash_util.hpp. Auth: src/core/auth_token.cpp.
-- FlatMap: src/core/flat_map.hpp. The fuel of a probe is the number of slots.
-- StringPool: src/core/string_pool.cpp, with the strings in place of the chunks that hold them.
-- Tree: src/core/metadata_tree.cpp, over FlatMap and StringPool: nodes in an array with links to
--   parent, children and siblings, the two indices, and all operations. Fuel is a bound on the
--   number of nodes that a loop visits.
-- Disk: the calls on the file system that the agent makes, as a record over a world of any type.
-- Scanner: src/core/scanner.cpp, the walk breadth first. Its fuel counts the directories that are
--   read; on a finite tree the weight of the root is enough.
-- Server: src/agent/server.cpp. Resolve has the paths of requests and their containment in the root,
--   Retry the calls that are tried again (eight pauses, from 1 ms to 128 ms), Files the mutations,
--   Reads single and bulk reads, Session the handshake and the loop of a connection as steps, Flush
--   the operations of a batch and the frames they are broadcast in, Snapshots the snapshot stream.
-- Client: src/agent/client.cpp. Cache has the cache of file contents, an association list with the
--   list of uses; an eviction takes a key off that list in every round, so its length is fuel enough.
--   Mirror has the tree with what invalidations and snapshots do to it, Backoff the times at which the
--   passes that fetch a snapshot start, Requests the requests that change the tree, over a function
--   that exchanges a request for its reply, Connect the handshake over the same.
-- Examples: concrete runs.
--
-- Numbers are unbounded where the code has 64-bit counters that only grow, and where it has 32-bit
-- numbers of nodes, names and scanned entries; arithmetic that wraps
-- (zigzag, the hash) has its modulus written out, and the wire's round trips ask for values in range.
-- BLAKE3 and the bytes of the random generator are parameters. Not modelled: sockets, file system
-- watchers, the FUSE callbacks and the programs, which are input and output; threads, locks and the
-- list of peers; the branches for Windows; the lines for the operator on stderr; and of the client,
-- the connection and the read-ahead.
pub mod Prelude
pub mod Types
pub mod Protocol
pub mod Paths
pub mod WinNames
pub mod Unicode
pub mod Coalescer
pub mod Ignore
pub mod Hash
pub mod Auth
pub mod Channel
pub mod Disk
pub mod Scanner
pub mod Server
pub mod Client
pub mod FlatMap
pub mod StringPool
pub mod Tree
mod Examples
