-- ===== src/Host.antt =====
-- packages/extension/src/host: the process between the browser and the tunnel.
pub mod Framing
mod Examples
