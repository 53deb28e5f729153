-- ===== src/Observ.antt =====
-- mediascanmonitor/observ: the two event buses.
pub mod EventsBus
