-- ===== src/Lib.antt =====
-- gearman-rs is an asynchronous client and worker for the Gearman job server. This library models
-- its wire protocol, its client and worker roles, and its client of the admin text protocol.
--
-- The parts and how they interact. The codec (src/protocol) turns packets into bytes and back.
-- A `Client` (src/client/mod.rs) picks a server for each job from its pool (src/client/multi.rs),
-- by round robin or on a consistent-hash ring (src/client/ketama.rs), and sends a command to the
-- server's actor. The actor owns the connection: it sends the packet of a command, remembers the
-- reply that is pending, matches the answers to the pending replies in order, and gives the events
-- of jobs to their subscribers. When the connection is lost it fails all that is pending and
-- connects again after a growing delay. A worker grabs jobs on its connections, one at a time, and
-- answers each with what the function's handler reports and returns. A worker connects again after
-- a growing delay, and registers its functions on each connection. The admin client sends text
-- commands and parses the lines that the server answers with.
--
-- Which file models what:
--   Base and its children: numbers, lists by native indices, byte strings, UTF-8, decimals, cycles
--   Error: src/error.rs
--   Protocol/PacketType, Protocol/Command: src/protocol/command.rs (PacketType, try_from, arg_count)
--   Protocol/Header: src/protocol/header.rs
--   Protocol/Packet: src/protocol/packet.rs (Packet, split_args)
--   Protocol/Codec: src/protocol/codec.rs (GearmanCodec.decode and encode)
--   Connection: src/conn.rs
--   Client/Job: src/client/job.rs
--   Client/Subscribers, Client/Events: HandleSubscribers and JobEventSubscribers of
--     src/client/mod.rs
--   Client/Incoming: handle_incoming, dispatch_work_event, parse_status_res of src/client/mod.rs
--   Client/Actor: actor_loop and fail_all_pending of src/client/mod.rs
--   Client/Server: run_server_actor and negotiate_exceptions of src/client/mod.rs
--   Client/Ketama: src/client/ketama.rs; Client/Ketama/Panics has `select` again, with a test that
--     may panic, as that of src/client/multi.rs may
--   Client/Pool: src/client/multi.rs
--   Client/Submit: the calls of Client in src/client/mod.rs
--   Client/Connect: ClientBuilder of src/client/mod.rs
--   Worker/Job: src/worker/job.rs, src/worker/registry.rs, dispatch_job and register_functions of
--     src/worker/mod.rs
--     Worker/Job/Sent: which packets of an answer are sent
--     Worker/Job/Wire, Worker/Job/Served: dispatch_job over the codec and to a client's actor
--   Worker/Registry: WorkerBuilder.register and Worker.unregister of src/worker/mod.rs
--   Worker/Grab: run_grab_loop and flush_unregistrations of src/worker/mod.rs
--     Worker/Grab/Late: tasks that keep a handler's Reporter (src/worker/job.rs)
--   Worker/Connection: run_worker_connection of src/worker/mod.rs
--   Worker/Builder: WorkerBuilder.run and Worker.shutdown of src/worker/mod.rs
--   Admin/Lines: read_line, read_dot_terminated and send_line of src/admin/mod.rs
--   Admin/Rows: the parsers of src/admin/mod.rs
--   Admin/Commands: the operations of AdminClient in src/admin/mod.rs
--   Tls: src/tls.rs (server_name), src/net.rs (connect)
--
-- Conventions. Texts and bytes are lists of numbers. A function that changes state takes the state
-- and returns it. A channel is a number; what is sent is a list. The branches that `select!` takes,
-- the outcomes of sends and receives, and the attempts to connect are lists of inputs, so a theorem
-- on all lists is one on all orders of events. A panic is `none` where the code can panic; that of
-- a handler ends its task. A send of a worker's answer fails where the codec refuses the packet or
-- the connection fails, and nothing is sent then. A `u32` or `usize` that can wrap is reduced by
-- `% 2 ^ 32` or `% 2 ^ 64`.
--
-- Parameters: MD5 and the unstable sort of the ring's points. The theorems say what they need of
-- them: sixteen bytes, and the same points in some order. For TLS: the check of a server name and
-- the handshake, of which nothing is needed. For connections: TCP, and `Framed` of tokio_util, which
-- reads a packet where `decode` finds one, reports the close after all bytes, and writes what
-- `encode` makes.
--
-- Fuel: the walk of the ring has one unit for each point and one more, and never runs out, since it
-- tries no server twice. `read_dot_terminated` has one unit for each byte that the server sends and
-- one more, since each line takes a byte. `to_string` has twenty digits, which every 64-bit number fits.
--
-- Not modelled: sockets, timers and the spawning of tasks, which are I/O; handlers that never
-- return; failures of reads and writes of the admin client other than the close of the connection;
-- log lines.
pub mod Base
pub mod Error
pub mod Protocol
pub mod Connection
pub mod Client
pub mod Worker
pub mod Admin
pub mod Tls
