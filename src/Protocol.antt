-- ===== src/Protocol.antt =====
-- The documents of the portal, tools/msa-adjudication-workbench/public/protocol.js: packets,
-- annotations, adjudications and ratifications, their validation and their Merkle roots.
pub mod Values
pub mod Files
pub mod Packets
pub mod Coverage
pub mod Resolutions
pub mod Roots
pub mod Bindings
