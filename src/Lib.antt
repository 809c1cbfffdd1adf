-- ===== src/Lib.antt =====
-- BtTracker, a BitTorrent tracker over UDP that keeps its swarms in Redis (paths from the
-- repository's root).
--
-- The program receives a datagram, clones it and hands it to a worker. The worker (src/pool.c) reads
-- the header, makes sure that it has a connection to Redis, and dispatches on the action: connect
-- (src/connect.c), announce (src/announce.c), scrape (src/scrape.c) or an error (src/error.c). The
-- handlers check the request (src/handshake.c), read it and write the response (src/net.c,
-- src/byteorder.h), and keep connections, peers and statistics in Redis (src/data.c).
--
-- Which module models what:
--   Memory      blocks of bytes, loads, stores and `memcpy` on them, byte orders
--   ByteOrder   src/byteorder.h: `ntohll` and `htonll`
--   Data        the structures and constants of src/data.h, conf.h, exit.h, net.h, connect.h
--   Net         src/net.c: `bt_read_…` and `bt_write_…`, without the prefix
--   Hex         `bt_bytearray_to_hexarray` of src/data.c
--   Platform    what is not the program's: hiredis and the server, `malloc`, `rand`, doubles
--   Exec        the actions: explicit passing of the world, with outcomes
--   Random      src/random.c
--   Redis       src/data.c: connections, restrictions, downloads, statistics
--   Peers       src/data.c: peers and the lists of peers
--   Handshake   src/handshake.c
--   ErrorReply  src/error.c
--   Connect, Scrape, Announce   the handlers of src/connect.c, src/scrape.c, src/announce.c
--   Pool        `bt_request_processor` of src/pool.c
--   Conf        `bt_load_config` of src/conf.c
--   Server      the loop of src/bttracker.c, and the start of a job, as steps in any order
--   Service     the running program: the loop, the workers with their connections, what they send,
--               and the signals, as steps in any order
--   Startup     `main` of src/bttracker.c up to its loop, with `bt_ipv4_udp_sock` of src/net.c
--   Common, Text   shared names, and texts as bytes
--   Tests       examples on a small host
-- A function keeps its name in the source without `bt_`; its children hold its theorems. Children of
-- one name (Returns, Whole, Limits, Echoes, Pipelines) follow one question through all the components
-- that a job passes, from the writers and the commands to the worker or the running program.
--
-- Conventions. An integer of w bits is a number below 2 ^ w, its bit pattern; wrap-around is written
-- out. A function of the program is an action on a world of three states, Redis (the server and
-- the connections of the threads), the heap and the generator of random numbers, and ends with a value, with a fault, which is what C leaves
-- undefined (an access through NULL or out of bounds, or the release of what is not, or no longer, a
-- reply), or by `exit`. Every loop is a structural recursion on
-- the list that it follows or on the count of its rounds, so no fuel is needed; the digits of `%d`
-- are computed with ten rounds, enough below 2 ^ 32, and those of a 64-bit number with twenty.
--
-- Outside code is a parameter: a platform has the functions, and records of laws (HasMemory,
-- HasBlocks, IsStore, IsReadable, HasPipeline, HasQueue, IsIeee, IsDyadic) state their documented
-- behaviour where a theorem relies on it. A command to Redis is the list of the words that hiredis
-- makes of its format. Three conditions are no documented behaviour: IsFair is one on the random
-- numbers, which `randr` does not meet at RAND_MAX; IsDown is the state of a server that nobody can
-- reach; HasReplies says that no connection is lost before a queued command is answered.
--
-- Not modelled: logging (but for the text of the line of an announce), the seed of `rand`, the
-- release of memory, the fields of the socket addresses, and the threads inside GLib's pool: a job
-- starts at any time after it was pushed, first come first served, and is then run as one action,
-- so two jobs do not interleave; only Peers/Races has the commands of two workers in turn. A time
-- to live does not run out by itself in a history of commands.
pub mod Common
pub mod Memory
pub mod ByteOrder
pub mod Data
pub mod Net
pub mod Text
pub mod Platform
pub mod Exec
pub mod Hex
pub mod Random
pub mod Redis
pub mod Peers
pub mod Handshake
pub mod ErrorReply
pub mod Connect
pub mod Scrape
pub mod Announce
pub mod Pool
pub mod Conf
pub mod Server
pub mod Startup
pub mod Service
pub mod Tests
