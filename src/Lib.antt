-- ===== src/Lib.antt =====
-- BBS2 is a bulletin board system for amateur radio. Callers reach it over AX.25, either directly,
-- through KISS or AGWPE, or through NET/ROM, a network of nodes that carries virtual circuits over
-- AX.25 crosslinks. This library models the parts that decide what a frame, a circuit, a route, a
-- caller or a line of chat means; sockets, the SQL engine and the user interface are left out.
--
-- The parts, from the wire upwards:
--   * Ax25.NetromFrame models bbs/ax25/netrom_frame.py. Wire has the addresses and aliases
--     (decode_wire_call, encode_wire_call), Header and Frame the L3/L4 frames (encode_l3_frame,
--     decode_l3_frame), Nodes the NODES broadcast, and Classifier looks_like_netrom_l3. The
--     modules ending in Laws are about the module of that name.
--   * Ax25.Kiss models bbs/ax25/kiss_frame.py, and Ax25.Address models bbs/ax25/address.py.
--   * Netrom.Circuit models the NetromCircuit and its writer of bbs/netrom/circuit.py: Inbound
--     has the handlers of frames, Outbound `write` and `drain`, Lifecycle the closing.
--   * Netrom.Transfer puts two circuits at the ends of a crosslink, and lets writes, rounds of
--     `drain`, deliveries and acknowledgements interleave as steps of a relation. A `drain` that
--     finds the window full waits until the window event is set.
--   * Netrom.Manager models the NetromCircuitManager of bbs/netrom/circuit.py: Tables allocates
--     and removes circuits, Dispatch routes frames, Originate opens outbound circuits, and Idle
--     is the reaper of an idle crosslink. Circuits live in a heap that only grows, since the
--     tables, the tasks and the callers share them.
--   * Netrom.Router models the NetromRouter of bbs/netrom/router.py: Table takes in a NODES
--     broadcast, Aging is the obsolescence scan, Lookup the choice of a next hop, and Broadcast
--     what the node advertises.
--   * Netrom.Gateway models the GatewayGuard of bbs/netrom/gateway.py.
--   * Services.Dispatcher models the ServiceDispatcher of bbs/services/dispatcher.py; Argv has
--     the substitution in argument vectors.
--   * Netrom.Node models bbs/netrom/node.py: it has the command table and its
--     abbreviations, Relay the two pumps of a bridge and their line ends, and Connect the command
--     CONNECT, whose link, far node, bridge and local application are given by their outcomes.
--   * Core.Auth models bbs/core/auth.py: the levels and the identification, Code the one-time
--     codes over a digest that is a parameter, and Otp the verification with its lockout.
--     Db.Users models the table of users of bbs/db/users.py and bbs/db/schema.py.
--   * Core.EventBus models bbs/core/event_bus.py; Spec counts the standing registrations.
--   * Plugins.Chat models bbs/plugins/chat/chat.py: the rooms on a heap, History the scrollback,
--     Store the tables and the deletion, Private the whispers, and Session the loop of a user.
--   * Transport.Agwpe models frames, the read loop and the writer of a session (Writer) of
--     bbs/transport/agwpe.py, and Transport.Kiss the UI frame builder of bbs/transport/kiss.py.
-- Dict is Python's dict in insertion order, Text its str, and Prelude the shared names and lemmas.
--
-- A circuit hands INFO frames to the writer of its crosslink; the frame codec turns them into
-- bytes; the manager at the other end decodes and dispatches them. The router feeds on NODES
-- broadcasts and tells which neighbour to open a crosslink to, and the guard and the dispatcher
-- decide whether a caller may go on. The node's CONNECT asks the router for a route and the guard
-- for a slot; a one-time code is verified against the table of users, which holds the lockout.
--
-- Conventions. A str is the list of its code points, and a bytes the list of its bytes; `upper`,
-- `strip` and `int` are those of ASCII. A raised exception is `none`. Masks and shifts on bytes
-- are written with `%` and `/`. Times are whole milliseconds, those of the tables of users and of
-- chat whole seconds, and the current one is an argument. An asyncio event or timer is a flag, and
-- a task an entry of a table; AX.25 connected mode is assumed to deliver frames whole and in
-- order.
--
-- Bounds and fuel. Sequence numbers wrap at 256, the window is 1 to 7, a table has 256 indices, a
-- reassembly buffer 65536 bytes, a bucket three routes, and the ring of refusals fifty entries. A
-- code is searched among three counters, a queue of chat holds a hundred entries, and the bridge a
-- line of 256 bytes. The loops that run on fuel take at least one element off their input in each
-- round, and are given its length: the entries of a broadcast, the digipeater path, the split of a
-- buffer, the fragments of a text, the chunks of a broadcast, and the frames of an AGWPE stream.
--
-- Not modelled: the dispatcher, the beacons and the outbound calls of the AGWPE transport; the
-- sessions of the KISS transport; the kernel and TCP transports; the session, its menus and its
-- terminal; the plugins other than chat; the web server; the bridge to child processes; the
-- persistence of the router; the parsing of the gateway's configuration; the listings and the
-- command loop of the node; what chat prints, other than its report on a whisper; and all logging.
-- These are sockets, SQL and printing, or are large asynchronous loops around them.
pub mod Prelude
pub mod Dict
pub mod Text
pub mod Ax25
pub mod Core
pub mod Db
pub mod Netrom
pub mod Plugins
pub mod Services
pub mod Transport
