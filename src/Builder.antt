-- ===== src/Builder.antt =====
-- pkg/builder: the queue of build actions, and their execution.
pub mod WorkerBuildQueue
pub mod DemultiplexingBuildQueue
pub mod Executors
