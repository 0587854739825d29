-- ===== src/Launcher/ProcessPool/Destroy.antt =====
-- What the destructor of the launcher of a pool of processes does.
