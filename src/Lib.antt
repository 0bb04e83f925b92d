-- ===== src/Lib.antt =====
-- turbobond bonds several uplinks into one tunnel to a concentrator. This library models the parts of
-- the program that decide, over the native numbers, and proves what makes them correct.
--
-- Base: lists, bits, big-endian words, texts and dicts that the parts share. The digits of a number are
--   written on fuel one above it, and any fuel above it gives the same (Base/Text).
-- Crypto: turbobond/util/crypto.py. The AEAD of the `cryptography` package is a parameter (`Aead`)
--   with its documented laws (`IsAead`); the nonce and the sealer are the program's.
-- Protocol: turbobond/bond/protocol.py, the datagrams. `pack_header`, `parse_header`, `encode_frame`
--   and `decode_frame` keep their names; a BondError is an `err`, the OverflowError of the nonce too.
-- Replay: ReplayWindow of the same file, over bit operations on unbounded numbers.
-- Reorder: turbobond/bond/reorder.py, generic in the payload. Times are natural numbers of one unit
--   and an argument of each call. The loops recur on the heap, so they need no fuel.
-- Links: turbobond/links/model.py and links/monitor.py. Floats are a parameter (`Floats`, in
--   Base/Floats), since no theorem needs their arithmetic; a probe's result and the time are arguments.
-- Scheduler: turbobond/bond/scheduler.py. The two loops of `_weighted_pick` are `scan`, by the number
--   of links, and `pick_loop`, by the number of passes that the source allows.
-- Tunnel: turbobond/bond/tunnel.py, the client: `send_packet`, `send_control`, `read_socket`,
--   `handle_datagram`, `reorder_tick` and `refresh_links`. A list of events is an interleaving of
--   its tasks, where the sends of one packet on several links are one event, though the source may
--   yield between them. Handshake and lifecycle are not modelled.
-- Server: turbobond/bond/server.py, the concentrator: `handle_datagram` with its sessions and peers,
--   the way back to the clients, `_reorder_ticker` and `_reaper`. A list of events interleaves them, and
--   a log keeps each datagram that was sent, with its destination.
-- Selector: turbobond/transport/selector.py and profiles.py, `check_route` to `evaluate`. The two routes
--   are a data type, and a name that is no route is `none`. Each call is one step, though the source
--   awaits probes and callbacks within it.
-- Auth: turbobond/app/auth.py. Password hashes and signed cookies are parameters with laws
--   (`IsPasswords`, `IsSerializer`); random tokens, the time and whether a file could be saved are
--   arguments.
-- SipFirewall: turbobond/sip/firewall.py. The rules are the texts that the source builds; a command is
--   run by a host that is a parameter, and its result is read as the source does. The messages of a
--   report are constructors.
-- Command: turbobond/util/cmd.py, a host that runs commands, as a parameter.
-- Routing: turbobond/bond/routing.py, the commands for `ip` and what the reports say of their results.
-- Devices: turbobond/lan/devices.py, the registry; `str.lower` is a parameter.
--
-- Not modelled: shadowsocks, the LAN gateway, the supervisor, the activation log, quality of service
-- and the routers; sockets, the TUN device, subprocesses, the HTTP API, logging and the snapshots for
-- the dashboard, which only do input and output.
pub mod Base
pub mod Crypto
pub mod Protocol
pub mod Replay
pub mod Reorder
pub mod Links
pub mod Scheduler
pub mod Tunnel
pub mod Server
pub mod Selector
pub mod Auth
pub mod Command
pub mod SipFirewall
pub mod Routing
pub mod Devices
