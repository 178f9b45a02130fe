-- ===== src/Layout.antt =====
-- Window layouts: the server's table of snapshots with its handlers and its hourly downsampling
-- (internal/server/store/layout_snapshots.go, internal/server/api/layout_handlers.go,
-- cmd/trasker-server/layout_downsampler.go), and the client's capture and sync
-- (internal/client/layout).
pub mod Snapshots
pub mod Downsample
pub mod Ingest
pub mod Local
pub mod Capture
pub mod Syncer
pub mod Exchange
pub mod Examples
