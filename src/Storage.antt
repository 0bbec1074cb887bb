-- ===== src/Storage.antt =====
-- The storage server (storage/): documents in memory, edits, and locks on sentences.
pub mod Document
pub mod Disk
pub mod Statistics
pub mod Stdio
pub mod Metadata
pub mod Files
pub mod Checkpoints
pub mod Locks
pub mod Edits
pub mod Sessions
pub mod Clients
pub mod Start
pub mod Loop
pub mod Tests
