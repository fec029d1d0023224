-- ===== src/Drivers/Dispatch.antt =====
-- The choice of a driver, and the drivers as the daemon's interface.
use netflix_pbrd.Base.{List, Text, Io, fail, quoted, codes, if◌then◌else◌}
use netflix_pbrd.Text.{text_eq}
use netflix_pbrd.Config.{ApplyConfig}
use netflix_pbrd.System.{Applier}
use netflix_pbrd.Runner.{Runner}
use netflix_pbrd.Drivers.Rules.{RuleParsers}
use netflix_pbrd.Drivers.Edge.{apply_wg_route, apply_edge}
use netflix_pbrd.Drivers.Exit.{apply_exit, apply_nft_exit}
use netflix_pbrd.Drivers.OpenWrt.{apply_openwrt, reconcile_openwrt}

module _ {W : Type 0} (parsers : RuleParsers) (runner : Runner W) where
  unfoldable pub apply_networks : ApplyConfig → List Text → Io W (Unit {0})
  unfolding text_eq
  apply_networks c nets =
      if text_eq c.driver (codes "wg-route")
      then apply_wg_route runner c nets
      else if text_eq c.driver (codes "linux-edge")
      then apply_edge runner parsers c nets
      else if text_eq c.driver (codes "openwrt-pbr")
      then apply_openwrt runner c nets
      else if text_eq c.driver (codes "linux-exit")
      then apply_exit runner c nets
      else if text_eq c.driver (codes "nft-exit")
      then apply_nft_exit runner c nets
      else fail (quoted (codes "unknown driver ") c.driver)

  unfoldable pub reapply_networks : ApplyConfig → List Text → Io W (Unit {0})
  unfolding text_eq
  reapply_networks c nets =
      if text_eq c.driver (codes "openwrt-pbr")
      then reconcile_openwrt runner c nets
      else apply_networks c nets

  -- What the daemon is given.
  abbrev pub command_applier : Applier W
  command_applier = record { apply_networks = apply_networks; reapply_networks = reapply_networks }
