-- ===== src/Drivers.antt =====
-- internal/pbr/drivers.go: how the drivers put the networks into firewalls and routes, through the
-- command runner. A command's effect is the runner's; the model says which commands are run, with
-- which arguments and inputs, in which order, and what their results decide.
pub mod Commands
pub mod Rules
pub mod RuleScan
pub mod RuleTable
pub mod RuleOwner
pub mod Edge
pub mod Exit
pub mod OpenWrt
pub mod Dispatch
pub mod Journal
pub mod Ordering
pub mod ExitOrder
pub mod EdgeOrder
pub mod Quiet
pub mod Kept
pub mod RuleKept
pub mod Dispatched
pub mod Enforced
pub mod RestoreLines
