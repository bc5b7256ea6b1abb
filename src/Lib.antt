-- ===== src/Lib.antt =====
-- Shogunet, a network for fleets of agents: envelopes travel over whichever transport works.
--
-- The program's parts. An envelope is bounded, encoded and framed by protocol.py; large frames are cut
-- into segments for small media and put together by the receiver. transport_fallback.py ranks the
-- transports, walks over them behind circuit breakers and files messages that must arrive in the outbox
-- of store_forward.py; on the way in it assembles, decodes, drops duplicates by the inbox and guards the
-- recipient. relay_server.py keeps mailboxes for agents that cannot be reached, which relay_transport.py
-- polls. memory_sync.py shares facts between the agents' memories, and mesh_query.py asks them.
-- agent_registry.py says who is paired and which topics are an agent's own; audit.py chains records by
-- hashes; fallbacks.py latches a governor.
--
-- Which file models which part:
--   Prelude      numbers, lists, dictionaries and equality as Python has them
--   Security     security.py: sanitize_text, redact (in Payload) and clamp_int
--   Payload      protocol.py: _bound_payload, on values with floats as bit patterns
--   Protocol     protocol.py: Registry (tables), Struct, Header (peek_header), Envelope, Encode, Decode,
--                Segment (segment_frame, defragment), Assembler (SegmentAssembler)
--   Outbox       store_forward.py: OutboxStore, its file as lines, the last of which may lack its newline
--   Inbox        store_forward.py: InboxDedup
--   Transports   transports.py: LinkProfile, profile_for, accepts_class, chunk_size; Loopback (LoopbackBus,
--                LoopbackTransport)
--   Chain        transport_fallback.py: TransportChain; Ranking (_ranked), Sending (send, send_raw),
--                Receiving (_on_frame)
--   Agents       agent_registry.py: AgentRegistry; Topic (parse_shugonet_topic)
--   Relay        relay_server.py: RelayHub
--   RelayClient  relay_transport.py: RelayTransport; Reading and Starting (what its loop and start do)
--   Audit        audit.py: AuditChain
--   Fallbacks    fallbacks.py: NetworkFallbackController
--   Memory       memory_sync.py: InMemoryFactStore, and MemorySyncNode for what comes in; Publishing
--                (what it sends, and _on_digest)
--   MeshQuery    mesh_query.py: MeshQuery, _collect; Querying (query, _answer, _on_envelope)
--   LinkSimulator link_simulator.py: SimulatedEther, SimulatedTransport
--   Lora         lora_transport.py: LoraTransport, its duty cycle and its receiver; Pipe (_SerialPipe)
--   Tcp          tcp_transport.py: TCPTransport; Reading (_recv_exact, _read_loop)
--   Spatial      spatial.py: the octree; Index (SpatialIndex)
--   Tests        concrete runs, and the theorems applied to them
--
-- State is passed explicitly: a method takes the object and returns the new one beside its result. An
-- exception is a value: Result for the codec, an outcome of its own elsewhere. What a call reads from
-- outside is an argument or a parameter: clock readings in whole milliseconds, what a write to a file does,
-- Python's Unicode tables (Unicode), JSON and conversions (Stdlib), the media and the arithmetic of
-- floats (Platform), SHA-256, what the governor does. A latency is the bit pattern of a double that is
-- not negative, so the order of the numbers is that of the doubles.
--
-- Loops are structural, but for the entries of a compact body: they run on one unit of fuel more than
-- the body has bytes, and each round consumes at least two. The loop of poll runs over the wakings that
-- happen, and answers nothing while it still waits.
--
-- Each round of the poll loop of relay_transport.py takes what the hub answers to its requests. The
-- simulated ether counts time in milliseconds times its rate, so its airtime is a number of bits.
--
-- Airtime on the LoRa link is counted in thousandths of a bit at the link's rate, and coordinates are integers in a unit in
-- which every half of the octree's cubes is whole; the program has floats there. The receive loop of the
-- LoRa link runs on one unit of fuel more than its buffer has bytes, and each frame takes at least four; the
-- read loop of a TCP connection takes any fuel.
--
-- Numbers from outside are within the range of a double and the limits of JSON's reader, so that no
-- conversion overflows; and an admission check or a version check answers the same throughout a run.
--
-- Locks are not modelled: a method that holds its lock throughout is one step, and RelayHub.poll, which
-- waits between its rounds, takes what the other threads did as steps of its own. Not modelled: opening
-- sockets and threads, serial lines and HTTP (bluetooth_transport.py, discovery.py, dashboard.py), the
-- database (pg_store.py), the adapters to other programs, fusion in spatial.py and the envelopes of
-- spatial_sync.py, the search of the memory store, the entries that the chain writes to an audit log,
-- and the host and client that wire the parts together.
pub mod Prelude
pub mod Security
pub mod Payload
pub mod Protocol
pub mod Outbox
pub mod Inbox
pub mod Agents
pub mod Transports
pub mod Chain
pub mod Relay
pub mod RelayClient
pub mod Audit
pub mod Fallbacks
pub mod Tests
pub mod Memory
pub mod LinkSimulator
pub mod Lora
pub mod Tcp
pub mod Spatial
pub mod MeshQuery
