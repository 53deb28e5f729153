-- ===== src/Servers.antt =====
-- mediascanmonitor/servers: the adapters of the notification targets.
pub mod Common
pub mod Http
pub mod Quote
pub mod MediaServers
pub mod Webhook
pub mod Registry
pub mod Laws
