-- ===== src/System/Agreement.antt =====
-- What the daemon and an agent agree on along every run of their system, and what follows for the
-- screen and the sleep.
use draind.Daemon.State.{Daemon}
use draind.System.{System}
