-- ===== src/Task.antt =====
-- src/task and src/DataTask.cpp: the query to a device, its response, the status of the workers, and
-- the collection itself.
pub mod Query
pub mod Response
pub mod Status
pub mod Worker
pub mod Cycle
pub mod Frame
pub mod Control
pub mod Steps
pub mod Shown
pub mod Race
pub mod Sleep
