-- ===== src/Worker.antt =====
-- internal/worker: the SQS consumer: New (Setup), Start with its polling goroutines (Polling), and the
-- handling of one message. The replies of Redis and SQS to a write and a deletion only reach the log,
-- so these are recorded and not answered.
pub mod Jobs
pub mod Results
pub mod Handling
pub mod Stored
pub mod Outcome
pub mod Setup
pub mod Polling
pub mod Empty
