-- ===== src/LoadTest.antt =====
-- The load generators, cmd/testgallery/main.go and cmd/testupload/main.go: what they share.
pub mod Statistics
pub mod Report
pub mod Client
pub mod Galleries
pub mod Uploads
mod Tests
use progetto_sdcc.Prelude.{ℕ, String, Bool}

-- The outcome of one timed operation.
pub record OpResult : Type 0 where
  pub op : String
  pub latency : ℕ
  pub succeeded : Bool
