-- ===== src/Servers.antt =====
-- The servers of cmd/grpc-dummy-target/main.go and cmd/grpc-gap-target/main.go.
pub mod Listen
pub mod Handler
pub mod Logged
pub mod Answered
pub mod Gap
