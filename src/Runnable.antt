-- ===== src/Runnable.antt =====
-- The life cycle that app/domain/housekeeper/housekeeper.go, app/domain/monitor/secret_monitor.go and
-- app/domain/pusher/pusher.go share: `Run`, `Shutdown`, `reset`, `IsRunning` and the goroutine.
pub mod Defs
pub mod Laws
pub mod Purge
