-- ===== src/Parity.antt =====
-- cmd/grpc-parity-check: proto_compare.go, and the accounting and verdict of main.go.
pub mod Varint
pub mod Floats
pub mod Doubles
pub mod Extraction
pub mod Compare
pub mod Verdict
pub mod Acceptance
pub mod Concurrent
pub mod System
pub mod Replies
pub mod Tracked
pub mod Requests
pub mod Outcome
pub mod Ends
pub mod Launched
pub mod Launch
