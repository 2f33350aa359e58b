-- ===== src/Network/Tcp.antt =====
-- Network/tcp.cpp and Network/tcp.h: the socket table, what goes out, and what comes in.
pub mod Socket
pub mod Send
pub mod Receive
pub mod Provider
pub mod Transitions
pub mod Flags
pub mod Diagram
pub mod Handshake
pub mod Connections
pub mod Wire
