-- ===== src/Lib.antt =====
-- A model of VIP Real-Time Collaboration: the WebSocket server (websocket-server/) and the editor client
-- (src/) that connect the block editor's shared documents. All paths are from the repository's root.
--
-- The parts, and how they interact. A browser tab asks the WordPress side for a signed token, opens one
-- WebSocket with it and subscribes to rooms, each under a grant of its own. The server checks the token at
-- the upgrade of the request, applies its limits when the socket is open, and then either gives the socket
-- to a multiplex session, which speaks the binary protocol of protocol.ts and gives each room an adapter
-- that y-websocket's server treats as a socket of its own, or serves a single room. In the editor every
-- room has a provider, which fetches tokens, connects, retries with a growing delay, reports a status, and
-- leaves a room that has more connections than its limit. A modal in the editor shows the limits that the
-- statuses report and can send a ticket that asks for more.
--
-- Base: lists over the native numbers, texts as lists of UTF-16 code units, JavaScript's Map and Set over
-- texts in insertion order, the integers of a configuration, and parseInt.
--
-- Packages: what the sources take from npm packages, as parameters with their documented behaviour: lib0's
-- encoder, decoder and UTF-8 (Lib0, Lib0Laws), jsonwebtoken's verify (Jwt, JwtLaws), and what close and
-- terminate make of a WebSocket's readyState (Ws, WsLaws). Packages/Sample has instances of them.
--
-- Protocol: websocket-server/protocol.ts. encode_message and decode_message are encodeMessage and
-- decodeMessage, with write_fields and read_fields for their switches; Protocol/Reader is the class Reader,
-- and a thrown ProtocolError is the value `err`. read_var_uint_loop carries the number of bytes left of the
-- ten a variable-length integer may have. The error's message texts are not modelled, and a payload is its
-- list of bytes.
--
-- Auth: websocket-server/auth.ts and utils.ts. verify_token is verifyToken, is_request_authenticated is
-- isRequestAuthenticated, validate_legacy_room_path is validateLegacyRoomPath, and get_request_pathname is
-- getRequestPathname. A number of a claim is a natural number. getRawDataSizeBytes is not modelled.
--
-- Session: websocket-server/multiplex-session.ts, room-websocket.ts and physical-heartbeat.ts. Session.State
-- is the state of a MultiplexSession with its rooms, adapters and metrics; Session has one function per
-- method, Session/Heartbeat the interval of the heartbeat and the events of a connection. A run is any
-- sequence of messages, closes, errors, ticks, pongs, and sends and closes of adapters. The listeners that
-- packages attach to an adapter act by later events, not within the call that emits. The errors that a
-- send meets are data of the run.
--
-- Server: websocket-server/server.ts, connection-limits.ts and the limits of config.ts. Server/Upgrade is
-- the listener of `upgrade` up to handleUpgrade, Server/Limits the limits over wss.clients, and Server the
-- connections: the callback of handleUpgrade, the timer of each connection, and its close listener. The ws
-- package adds a socket to wss.clients before the callback and takes it out when it is closed. The limits
-- are integers, as parseInt reads them. The gauges are those of recordConnectionOpen, recordConnectionClose
-- and reconcileConnectedClients. Server/Requests is createRtcServer as a whole: requests for health and
-- upgrades arrive, with timers, closes and maintenance between them; whether the ws package completes a
-- handshake is data of the run, and the bytes of an HTTP response are not modelled. Server/Metrics is the
-- part of websocket-server/metrics.ts that measures reconnections: track_disconnection, check_reconnection
-- and the clean-up of the maintenance loop, run as events that carry the time of the clock. Server/Start is
-- websocket-server/index.ts with parseIntFromEnv and the constants of config.ts.
--
-- Client: Client/ClosePolicy is src/websocket-close-policy.ts with the codes of src/types/sync.ts and
-- src/constants/sync-errors.ts; Client/RoomLimit is src/utilities/room-client-limit.ts for limits that are
-- natural numbers; Client/Provider is createConnect, setupRoomClientLimit and the closures of
-- createWebSocketConnection in src/websocket-client.ts with getTokenFetchErrorCode of
-- src/utilities/error.ts. An `async` call is cut at its awaits: what is awaited settles as an event, only
-- while it is pending. Timers are events too, so that no property depends on how long they take. The
-- readyState and the awareness map of the package's provider come with the events that read them.
-- Client/SharedSocket is src/shared-websocket.ts: the virtual sockets of the rooms over one physical socket,
-- with the constructor, close and send of a virtual socket in the parent and the listeners of the physical
-- socket in Client/SharedSocket/Listeners. What a callback of a virtual socket does before it returns is
-- data (Calls): it makes, closes and sends on virtual sockets, and `perform` does so where the callback is
-- called, within the loops over the sockets too. An event of a physical socket that is not the current one
-- changes nothing, and which sends throw is data of the run. `ready_of` is the readyState of a socket;
-- Client/SharedSocket/Kept and Client/SharedSocket/Steps say what each call and each event keeps, for any
-- invariant, Client/SharedSocket/Views for one on the callbacks' calls alone, and
-- Client/SharedSocket/Counts how many sockets an id has.
--
-- Client/Rooms is the rest of createWebSocketConnection up to the provider, with src/yjs-shim.ts
-- (create_provider, room_name), and setupRoomPresence with its Map of open rooms; parse_int is parseInt with
-- exact integers, and the blog's id is the text that it is printed as. Client/ErrorMessage is
-- getErrorMessage of src/utilities/error.ts on a heap of objects, which may lead back to themselves.
-- Client/Identity is generateUUID of src/utilities/crypto.ts, memoizeFn of src/utilities/function.ts and
-- fetchAuthToken of src/websocket-client.ts; the random values and the replies of the API are data.
--
-- Editor: Editor/Modal is src/components/collaboration-limit-modal.tsx: the state of its hooks, its two
-- effects, the click on the upgrade button and what is rendered, with the filter of src/index.ts. It renders
-- each status that the store holds, one after the other; its texts are named and not spelled out, and the
-- back and copy buttons are modelled by their look alone. Editor/Ticket is
-- src/components/submit-upgrade-ticket.ts, where what the call of fetch comes to is data, and Editor/Uri the
-- encodings of the language that it uses.
--
-- Link: the adapter of an editor over a connection to a session of the server. A message arrives after those
-- sent before it, as the bytes that it was encoded to; Link is the two states with what each has read, and
-- its runs interleave the events of both sides with arrivals. The link stays the same when the editor opens
-- another physical socket, which only adds runs.
--
-- Bounds: no loop of the sources is cut short by a model. The recursions are on the bytes, texts, rooms or
-- events at hand; the ten bytes of a variable-length integer are the bound of the source itself. The calls of
-- getErrorMessage run on fuel, and the rank of an acyclic heap is enough.
--
-- Not modelled: the metrics server, the message counters and the histograms but for the reconnection times,
-- logging, src/utilities/sync-event-emitter.ts, the selectors of the editor's store, the start of the process but for what it reads from the
-- environment, the debugging functions of development mode, the Yjs inspector, which is a copy of
-- another project, the WordPress plugin in PHP, the tests and the build scripts.
pub mod Base
pub mod Packages
pub mod Protocol
pub mod Auth
pub mod Session
pub mod Server
pub mod Client
pub mod Editor
pub mod Link
