-- ===== src/Tests.antt =====
-- Concrete runs: the libraries in memory, and the theorems applied to them.
mod Store
mod Memory
mod Libraries
mod Data
mod Replicas
mod CronJobs
mod Objects
mod Loop
mod Texts
mod Schedules
mod History
mod Kidlectl
mod Whole
mod Operator
