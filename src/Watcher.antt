-- ===== src/Watcher.antt =====
-- backend/lexmind/watcher: the backend that compares snapshots, and the service that filters and
-- debounces its events.
pub mod Config
pub mod Backend
pub mod Service
