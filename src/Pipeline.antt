-- ===== src/Pipeline.antt =====
-- mediascanmonitor/pipeline: events, filters, router, debouncer and dispatcher.
pub mod Events
pub mod Filters
pub mod Router
pub mod Debounce
pub mod Dispatcher
