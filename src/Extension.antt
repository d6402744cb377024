-- ===== src/Extension.antt =====
-- packages/extension/src: how the browser is pointed at a tunnel or an ingress.
pub mod Values
pub mod Routing
pub mod Client
mod Examples
