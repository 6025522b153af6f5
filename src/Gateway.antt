-- ===== src/Gateway.antt =====
-- crates/gateway-controller/src: the firewall, the tunnel backend and the kill switch.
pub mod Runner
pub mod Render
pub mod Bootstrap
pub mod Controller
pub mod Loaded
