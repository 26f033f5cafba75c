-- ===== src/Kidlectl.antt =====
-- cmd/kidlectl: the command line tool by which users, and the CronJobs of the operator, change
-- IdlingResources.
pub mod Resources
pub mod Client
pub mod Commands
pub mod Authorized
