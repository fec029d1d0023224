-- ===== src/Runtime.antt =====
-- internal/pbr/runtime.go: the daemon. Its state is the record behind the locks, beside the world. An
-- operation that holds `syncMu` is one step: no other writer of the networks runs meanwhile.
pub mod Daemon
pub mod Server
pub mod Inversion
pub mod Invariant
pub mod Learning
pub mod Reports
pub mod Accepting
pub mod Evidence
pub mod Witnessed
pub mod Success
pub mod History
pub mod Restart
pub mod Running
unfoldable pub use Daemon.*
