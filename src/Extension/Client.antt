-- ===== src/Extension/Client.antt =====
-- packages/extension/src/client.ts: `WarrenBrowserVpn`, which routes the browser through the native host's
-- listeners. Parameters: the browser (what its proxy settings are after a `set`, and what they are once
-- cleared) and what the host answers. The messages on the port are left out: what comes of a request is
-- an argument. `proxy.settings.get` is there.
pub mod State
pub mod Connect
pub mod Release
pub mod Triples
pub mod Stages
pub mod Passing
pub mod Restore
pub mod Waiting
pub mod Pointing
pub mod Connected
pub mod Yields
pub mod Routed
pub mod Leave
mod Examples
