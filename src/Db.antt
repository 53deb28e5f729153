-- ===== src/Db.antt =====
-- mediascanmonitor/db: the boundary models and the repository.
pub mod Crypto
pub mod Schemas
pub mod Tables
pub mod Repo
