-- ===== src/Tests.antt =====
-- Runs of the model on concrete inputs.
mod Data
mod Requests
mod Parts
mod Startup
mod Goroutines
mod Settings
mod Replies
