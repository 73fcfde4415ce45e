-- ===== src/Examples.antt =====
-- The theorems at concrete inputs, and runs of the model, one module for each part.
mod Cache
mod Retry
mod Worker
mod RateLimit
mod Idempotency
mod Batch
mod Sockets
mod Migrations
mod Webhooks
mod Applications
mod Redis
