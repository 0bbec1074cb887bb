-- ===== src/Client.antt =====
-- client/: the client, a program on a terminal.
pub mod Input
pub mod Wire
pub mod Fueled
pub mod Transfer
pub mod Files
pub mod Access
pub mod Folders
pub mod Review
pub mod Updates
pub mod Writing
pub mod Registration
pub mod Main
pub mod Tests
