-- ===== src/Client.antt =====
-- The editor client: src/websocket-close-policy.ts, src/utilities/room-client-limit.ts,
-- src/websocket-client.ts, src/shared-websocket.ts, and error.ts, crypto.ts and function.ts of src/utilities.
pub mod ClosePolicy
pub mod RoomLimit
pub mod Provider
pub mod SharedSocket
pub mod Rooms
pub mod ErrorMessage
pub mod Identity
