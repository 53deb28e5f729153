-- ===== src/Watcher.antt =====
-- mediascanmonitor/watcher: the inotify backend and its watch limit.
pub mod FileTree
pub mod WatchLimit
pub mod Inotify
