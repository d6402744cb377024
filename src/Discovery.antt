-- ===== src/Discovery.antt =====
-- packages/core/src/discovery: relays, their selection, and the acceptance of signed documents.
pub mod Json
pub mod Fields
pub mod Platform
pub mod PqDescriptor
pub mod Ss58
pub mod Verify
pub mod Multihop
pub mod Relay
pub mod Selector
pub mod Stores
mod Examples
