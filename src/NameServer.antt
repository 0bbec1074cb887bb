-- ===== src/NameServer.antt =====
-- The naming server (name/): its lookup structures, its catalog, and its message handlers.
pub mod Index
pub mod State
pub mod Catalog
pub mod Consistent
pub mod Files
pub mod Access
pub mod Requests
pub mod Views
pub mod Relays
pub mod Servers
pub mod Registration
pub mod Execution
pub mod Run
pub mod Loop
pub mod Tests
