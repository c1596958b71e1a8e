-- ===== src/Executor/Launch.antt =====
-- `scheduleGraph` of executor.go up to `schedule`: which tasks a run starts with, and in which order.
use go_taskflow.Graph
use go_taskflow.Queue.{Queue}
use go_taskflow.Sort.{Sort}
