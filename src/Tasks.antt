-- ===== src/Tasks.antt =====
-- src/tasks: the jobs of the three queues. The broker of the package bullmq, which runs a job when its
-- children are done, is outside.
pub mod Site
pub mod TasksService
pub mod TasksQueue
pub mod ValidationQueue
pub mod VerificationQueue
