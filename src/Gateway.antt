-- ===== src/Gateway.antt =====
-- crates/nexal-gateway: what the gateway keeps between the requests of its clients.
pub mod Keys
pub mod Proxies
pub mod TcpProxies
pub mod Conn
pub mod Hello
pub mod Methods
pub mod Session
pub mod Pool
pub mod ProxyServer
pub mod Agents
pub mod Examples
