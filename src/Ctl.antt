-- ===== src/Ctl.antt =====
-- mx2ctl.py: the commands, each as what it prints, its exit code, and the daemon after it. A command
-- sends at most one request, which the daemon answers at once.
pub mod Terminal
pub mod Request
pub mod Pow
pub mod Stats
pub mod Queue
pub mod Mail
pub mod Proxy
pub mod Main
