-- ===== src/Windows.antt =====
-- Arrival windows: the sender's WindowAnalyzer of metrics.go, and stats and analyzeWindows of
-- cmd/grpc-gap-target/main.go.
pub mod Capture
pub mod Bins
pub mod Analyzer
pub mod Gap
pub mod GapSummary
pub mod AnyOrder
pub mod Ranks
pub mod Largest
pub mod Laws
pub mod Latency
pub mod FloatSort
pub mod Percentiles
pub mod Drawn
