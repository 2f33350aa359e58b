-- ===== src/Network.antt =====
-- Network/: the layers of the stack from Ethernet frames up to UDP and TCP, and the byte order and the
-- checksum that they share.
pub mod ByteOrder
pub mod Checksum
pub mod Ethernet
pub mod Ip
pub mod Icmp
pub mod Udp
pub mod Arp
pub mod Tcp
mod LayerTests
mod Tests
