-- ===== src/Imports.antt =====
-- backend/lexmind/import_queue: import requests and the service that queues them.
pub mod Request
pub mod Queue
