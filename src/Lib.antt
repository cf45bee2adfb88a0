-- ===== src/Lib.antt =====
-- ASNPrefixMap keeps, for each IPv4 and IPv6 prefix that the RIPE RIS Live stream announces, the
-- origin AS that most peers currently see. A message is parsed into announce and withdraw events
-- (src/parser), their prefix texts become binary prefixes (src/prefix), their peers become small
-- ids (src/peer), and `RoutingState` (src/routing_state.cpp) keeps the observations of every prefix
-- with incremental counters, from which it exports one origin for each prefix.
--
-- Base: what the parts share. Tests (Boolean tests and equality), Lists (vectors as lists), Sorting
-- (`std::sort` as an insertion sort), Errors (exceptions as values), Text and Decimal
-- (`std::string` as a list of bytes, `std::to_string` and `std::stoul`), Bits (masks as
-- arithmetic), Map (`std::unordered_map` as an association list; no result rests on its order).
--
-- Prefix: src/prefix/prefix.h and src/prefix/prefix.cpp. Prefix/Mask has `apply_mask_v4` and
-- `apply_mask_v6`, where a shift whose behaviour is not defined gives no result, Prefix/Cidr the
-- parsing and printing, Prefix/Inet the parameters that stand for `inet_pton` and `inet_ntop` with
-- their laws, Prefix/RoundTrip the proofs about both directions.
--
-- Peer: src/peer/peer_registry.h and src/peer/peer_registry.cpp. Peer/Mirror relates the two maps
-- of `PeerRegistry`, Peer/Key is about the textual key.
--
-- Routing: src/routing_state.h and src/routing_state.cpp. Routing/Record is one `PrefixRecord` with
-- its counters and its selection; its children say what an announce or a withdraw does to it.
-- Routing/Table is the pair of maps of one family (`by_prefix`, `aggregated`) with `announce_impl`
-- and `withdraw_impl`, which are templates in the source and are generic here. Routing/State is
-- `RoutingState`, and Routing/State/History what holds after any sequence of its calls.
-- Routing/State/Agreement compares two states. Routing/Export is `export_tables`, as the contents
-- of the two files that it writes; Routing/Export/Totality says when it gives them.
--
-- Parser: src/parser/ris_live_parser.cpp and src/bgp_event.h. The JSON library is a parameter, and
-- the callback is a function on the caller's state that may throw. The library's `parse` gives a
-- value, throws the `parse_error` that the source catches, or throws the `out_of_range` of a number
-- that no `double` holds, which it does not. Parser/Message describes the events of a message over
-- the JSON values, Parser/Events is about the parser's calls of the callback against them.
--
-- Source: src/source/ris_live_websocket_source.cpp, the connection, the reconnection loop with its
-- delays and limit, and `next_message`. The outcomes of the network's calls and the answers of the
-- shutdown callback are parameters. Source/Backoff has the invariant of the object, Source/Sleep,
-- Source/Reconnect and Source/Messages are about the three loops, Source/Connecting about
-- `ensure_connected`.
--
-- FileSource: src/source/file_jsonl_source.cpp, the replay of a file whose contents are a
-- parameter.
--
-- Config: src/config.h and src/config.cpp, with `std::stod` and the contents of the file as
-- parameters. Config/Keys is a table of the keys, Config/Setting is about the chain of tests against
-- it, Config/Lines about one line.
--
-- Stats: src/stats/growth_stats.h and src/stats/growth_stats.cpp. Floating point is a parameter,
-- and the clocks' readings are arguments. Stats/History has any sequence of calls; Stats/Window is
-- about the window of rates and the plateau, Stats/Seen about the sets, Stats/Growth about the
-- counts of what is new. Stats/Csv is `StatsCsvWriter`, as the text of its file; how a `double` is
-- printed with so many digits is a parameter.
--
-- Ingest: the message loop of src/main.cpp, which joins the parser, the peers, the routing state
-- and the tracker. A turn of the loop is what the source, the signals and the clocks give to it.
-- Ingest/Peers is about the cached peer id, Ingest/Counters about the counters. Ingest/Settled has
-- what the registry and the routing state keep together, and Ingest/Ready follows it over the loop.
--
-- Program: `main` of src/main.cpp around the message loop, from the configuration and a snapshot to
-- be loaded, over `create_source`, to the snapshot saved, the exported tables and the text on the
-- console. What files hold, whether they open, and what clocks and signals say is a record of the
-- outside, `World`. For a file, the turns of the loop come from FileSource; for the network, they
-- are a part of `World`. Program/Finish is about what stands behind the loop, Program/Replay about
-- the loop over a file.
--
-- ErrorFormat: src/error_format.h, with Boost's error codes as parameters. Demo:
-- src/ris_live_demo.cpp, with what it prints as a text.
--
-- Snapshot: src/snapshot/snapshot_io.h and src/snapshot/snapshot_io.cpp. Snapshot has the lines of
-- a snapshot and `save_snapshot`, whose file is the text that it gives; Snapshot/Load has
-- `load_snapshot` from the contents of a file, with the registry and the state as an exception
-- leaves them. Snapshot/Fields, Snapshot/Lines and Snapshot/Sections read a saved text back,
-- Snapshot/Peers and Snapshot/Printed enter its peers and observations, Snapshot/RoundTrip puts a
-- save and a load together, Snapshot/Loading is about the load of any file, and Snapshot/Saving
-- about the save of any state. What a load does to the routing state is in Routing/State/Stored,
-- Routing/State/Restoring and Routing/Table/Rebuild. Beside the laws of `IsInet`, a printed address
-- is taken to hold neither a tab nor a newline (`PrintsFields`).
--
-- Bounds: a number is a natural number, with the wrap-around of 64, 32 and 8 bits written out where
-- the source can reach it. The counters of a record wrap at 2^32, so the results about a history
-- ask that an announce finds fewer than 2^32 - 1 observations in its record
-- (Routing/State/Families, `Fits`), and those about a loaded snapshot that it holds fewer than 2^32
-- observations; peers have 32-bit ids and a record holds one observation for each. Over the message
-- loop it is enough that there are fewer turns than ids left (Ingest/Ready). Three recursions take
-- fuel: the printing of a number, which is given one more than the number; a sleep, which is given
-- one more than its milliseconds; and the loops of the network source, which may run for ever. For
-- these the results say how many rounds are enough.
--
-- Not modelled: what goes to `cerr` (the notes of `main` and `print_plateau_message`), the name of
-- the samples' file (`make_stats_filename`), the signal handler and the thread that waits for a key
-- (src/main.cpp), whose flags are a part of each turn, the flushing of files, and the hash
-- functors, on which no result rests. JSON, sockets, Boost's error codes, floating point and the
-- address routines of the platform are third-party code.

pub mod Base
pub mod Prefix
pub mod Peer
pub mod Parser
pub mod Routing
pub mod Source
pub mod Stats
pub mod FileSource
pub mod Config
pub mod Ingest
pub mod Snapshot
pub mod ErrorFormat
pub mod Demo
pub mod Program
