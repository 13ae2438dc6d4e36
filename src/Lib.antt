-- ===== src/Lib.antt =====
-- Verification of the packet path of an intrusion prevention system: an XDP program in the kernel passes
-- frames to worker queues; the workers put IPv4 fragments of UDP datagrams together, follow TCP sessions
-- and put their segments in order, look into the TLS ClientHello for the name of the server, which a
-- blocklist judges, end the TLS of the services they protect, scan the plain bytes for the patterns of
-- Suricata rules, and forward what passes to a backend on the same host, whose answers they send back.
--
-- - Base: shared names, Boolean tests and lists over the native numbers, options as faults.
-- - Xdp/Program: `aethon_xdp_prog_main` and `stats_record_count` of src/main/ebpf/xdp_kern_prog.c. The
--   frame is the list of its bytes from `data` to `data_end`; a read past the end is the fault `none`.
--   The queue map's redirect is a function of the context.
-- - Xdp/Limiter: `token_bucket` and `sliding_window_limiter` of the same file, in 64-bit arithmetic. The
--   program does not call them: the block that would is commented out.
-- - Udp: src/main/transport/udp_assembler.h. A `ReassemblySession` keeps its bitmap of written blocks and its
--   buffer. `Udp.process_fragment` is the function from the lookup on: the slot of the key is an argument.
-- - Tcp/Seq, Tcp/Options: `TcpSeq` and `parse_tcp_syn_option` of src/main/transport/tcp_assembler.h.
-- - Tcp/Ring, Tcp/Bitmap: the 64 KiB ring buffer of a session and its bitmap, a word of 64 bits at a time.
-- - Tcp/Session, Tcp/Segment: a session of the table, and `process_packet` on it: flags, the window test,
--   packets ahead of `rcv_nxt`, the filling of gaps, FIN. `Outcome` says how a part of the function ends.
-- - Tcp/Backend: the backend side of a `TcpStreamSession` (the same file): `recv_window`,
--   `flush_backend_tx`, `forward_to_backend`, `read_from_backend`.
-- - Table: `SingleThreadHashMap` of aethon/single_thread_hasmap.h, at the capacity of both engines.
-- - Tcp/Engine, Udp/Engine: the engines over the table: `process_packet` and `process_fragment` whole, the
--   sweep of what is old, `close_session`. `none` is an abort, or a read out of bounds.
-- - Tls/Parser: `parse_client_hello` of src/main/tls/tls_parser.h; Tls/Blocklist: `DomainBlocklist` of
--   src/main/tls/domain_blocklist.h. Tls/Connection: `TlsConnection` of src/main/tls/tls_engine.h.
-- - Pipeline: src/main/transport/tcp_pipeline.h. Pipeline holds `send_tcp_segmented_data`; Pipeline/Frame
--   the parts of a frame and the answers; Pipeline/Hello the collecting of a ClientHello and the policy
--   (lines 160 to 242); Pipeline/Relay what TLS and plain data go through (244 to 407); Pipeline/Packet
--   `handle_tcp_packet` put together; Pipeline/Drain `drain_backend_events`. The part of the handler behind
--   `process_packet` is `respond`: it takes the session that was found and answers with the session's
--   `Fate`, which `settle` writes back to the table. `read_packet` takes the TCP header and the payload out
--   of memory at once: where they run past its end the handler gives `none`, also for packets whose payload
--   the code would not look at.
-- - Rules: src/main/dpi/rule_parser.h: the structs in Rules, `normalize_content_to_regex` in
--   Rules/Content, `parse_port_range` in Rules/Ports, the options of a rule in Rules/Options,
--   `parse_rule_line` in Rules/Line, `RuleDatabase` in Rules/Database. Rules/Text has what the parser uses
--   of the C++ library: `find`, `rfind`, `substr`, `from_chars`.
-- - Scan: src/main/dpi/hyper_scan_engine.h: `on_match_event`, the scans of engine and worker, and
--   `compile_rules`.
-- - Net/Injector: the frames that `PacketInjector` of src/main/net/packet_injector.h builds.
-- - Net/Checksum: `is_valid_ipv4_checksum` of src/main/transport/ip_address.h and `ipv4_compute_checksum`
--   of src/main/net/packet_injector.h.
--
-- Loops that the source writes with `while` run on fuel: the bits of a range (each round takes a bit), the
-- bytes of a header or a payload (each round takes a byte), the carries of a 32-bit sum (two rounds), the
-- probes of a lookup (64) or of an insertion (the capacity), the moves of an erasure (the capacity, which is
-- enough while a cell is empty), the segments of a send (the number of bytes, each round sends one at
-- least), the options of a rule and the items of its metadata (the length of the text, each round reads a
-- character). Where running out could be taken for a result it is `none`. Machine words
-- are natural numbers with the wrap-around written out; pointers into a session are options, and what an
-- allocation answers is an argument.
--
-- The pipeline acts on the outside through the `World`: the pool of transmit buffers, the places on the ring,
-- the frames put there, the calls of `epoll_ctl`, and the bytes that the backend, `BIO_write` and `SSL_write`
-- were given. What the outside answers comes with each call: the `Env` of a packet has the answers of
-- `socket`, `send` and `recv`, of OpenSSL, of the scanner and of the service registry, and a run of
-- packets may change them with each packet. The matches that Hyperscan reports are an argument of the scans.
--
-- Not modelled: what prefetches, hints and logs; OpenSSL and Hyperscan themselves; `next_power_of_two` and the
-- map from sids to rules in the scanner, which is a function; the service registry, whose two lookups are
-- arguments; the control program with its sockets and threads. The hash functions of the keys are
-- parameters: no theorem depends on how they mix.
pub mod Base
pub mod Table
pub mod Tcp
pub mod Tls
pub mod Net
pub mod Pipeline
pub mod Rules
pub mod Scan
pub mod Udp
pub mod Xdp
