-- ===== src/Web.antt =====
-- mediascanmonitor/web: the parts of the dashboard with logic of their own.
pub mod RateLimit
pub mod Auth
pub mod TypeSpecs
pub mod Writes
pub mod ReadModels
pub mod Probe
pub mod Api
pub mod Browse
pub mod Forms
pub mod Pages
