-- ===== src/Launcher/Thread/Destroyed.antt =====
-- What is left to the destructor of the launcher.
use cmsc_624_spring.Launcher.Thread.{Launcher}
