-- ===== src/Replay.antt =====
-- Replay files: main.go's loadRequests, validateLoadedRequest, roundRobinRequest and
-- makeDispatchJob, and the loadRequests of cmd/grpc-parity-check/main.go.
pub mod Reader
pub mod Load
pub mod Dispatch
pub mod ParityLoad
pub mod LoadBounds
pub mod Records
pub mod RoundTrip
pub mod Takeover
pub mod Agreement
pub mod Codec
