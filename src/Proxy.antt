-- ===== src/Proxy.antt =====
-- internal/proxy: the pipelines that take a request to the upstream and its response back.
pub mod Limits
pub mod Transaction
pub mod Services
pub mod Hooks
pub mod Pausing
pub mod MapLocal
pub mod Upstream
pub mod Pipeline
pub mod Http
pub mod Forwarding
pub mod Storing
pub mod Tls
pub mod Agreement
pub mod Breakers
pub mod LocalFiles
pub mod Transparent
mod Fixtures
mod Examples
