-- ===== src/Operations/Cleanup.antt =====
-- `Cleanup`: the drivers undone, in reverse order.
use mathlib.Core.List.{reverse}
use netflix_pbrd.Base.{
  Bool, true, false, ◌||◌, List, [], ◌∷◌, ◌++◌, Text, Io, ◌>>=◌, ◌>>◌, pure, fail, when, catch,
  Result, ok, err, Error, codes, if◌then◌else◌,
}
use netflix_pbrd.Text.{text_eq, contains_text, trim_space, join}
use netflix_pbrd.Text.Words.{words}
use netflix_pbrd.Dns.{to_lower}
use netflix_pbrd.Config.{ApplyConfig, Config}
use netflix_pbrd.Runtime.Daemon.{file_lines}
use netflix_pbrd.Drivers.Rules.{delete_owned_ip_rule}
use netflix_pbrd.Drivers.Edge.{with_edge_defaults, rule_key, edge_hook, edge_selector, set_allowed}
use netflix_pbrd.Drivers.Exit.{with_chain, nat_chain_of}
use netflix_pbrd.Drivers.OpenWrt.{pbr_option, firewall_option}
use netflix_pbrd.Operations.Machine.{Machine}

abbrev pub missing_parts : List Text
missing_parts =
    codes "bad rule"
    ∷ codes "no chain"
    ∷ codes "does not exist"
    ∷ codes "no such file"
    ∷ codes "entry not found"
    ∷ codes "cannot find rule"
    ∷ codes "cannot find device"
    ∷ []

abbrev pub contains_some : Text → List Text → Bool
contains_some s [] = false
contains_some s (part ∷ parts) = contains_text s part || contains_some s parts

module _ {W : Type 0} (m : Machine W) where
  open m use {runner, system, error_text, unicode_lower, rule_parsers}

  unfoldable pub is_missing_error : Error → Bool
  unfolding to_lower contains_text
  is_missing_error e = contains_some (to_lower unicode_lower (error_text e)) missing_parts

  -- What a failed command means to a probe, and to a command that may find nothing.
  abbrev pub probed : Result (Unit {0}) → Io W Bool
  probed (ok u) = pure true
  probed (err e) = if is_missing_error e then pure false else fail e

  abbrev pub tolerated : Result (Unit {0}) → Io W (Unit {0})
  tolerated (ok u) = pure tt
  tolerated (err e) = if is_missing_error e then pure tt else fail e

  unfoldable pub cleanup_probe : Text → List Text → Io W Bool
  cleanup_probe name args = do r ← catch (runner.run name args); probed r

  unfoldable pub run_allow_missing : Text → List Text → Io W (Unit {0})
  run_allow_missing name args = do r ← catch (runner.run name args); tolerated r

  abbrev pub run_list : Text → List (List Text) → Io W (Unit {0})
  run_list name [] = pure tt
  run_list name (args ∷ commands) = do runner.run name args; run_list name commands

  -- Commands that undo what a probe finds.
  unfoldable pub undo : Text → List Text → List (List Text) → Io W (Unit {0})
  undo name probe commands = do
    present ← cleanup_probe name probe
    when present (run_list name commands)

  unfoldable pub cleanup_nft : ApplyConfig → Io W (Unit {0})
  unfolding words
  cleanup_nft c =
      undo (codes "nft") (words "list table inet" ++ (c.chain ∷ []))
        ((words "delete table inet" ++ (c.chain ∷ [])) ∷ [])

  -- One route that may be gone: the shown route, and its removal.
  abbrev pub remove_route : ApplyConfig → Text → Text → Io W (Unit {0})
  remove_route c network shown =
      if text_eq (trim_space shown) (codes "")
      then pure tt
      else run_allow_missing (codes "ip")
          (codes "route" ∷ codes "del" ∷ network ∷ codes "dev" ∷ c.interface ∷ [])

  unfoldable pub remove_routes : ApplyConfig → List Text → Io W (Unit {0})
  unfolding text_eq words
  remove_routes c [] = pure tt
  remove_routes c (network ∷ networks) = do
    shown ← runner.output (codes "ip") (words "route show" ++ (network ∷ []))
    remove_route c network shown
    remove_routes c networks

  unfoldable pub cleanup_wg_route : ApplyConfig → List Text → Io W (Unit {0})
  unfolding join
  cleanup_wg_route c state = do
    set_allowed runner c (join c.base_allowed (codes ","))
    remove_routes c state

  -- The default route of the table, if `ip` shows one.
  abbrev pub remove_default : ApplyConfig → Text → Io W (Unit {0})
  remove_default c shown =
      when (contains_text shown (codes "default"))
        (runner.run (codes "ip") (words "route del default table" ++ (c.table ∷ [])))

  unfoldable pub cleanup_edge_with : ApplyConfig → Io W (Unit {0})
  unfolding words join contains_text
  cleanup_edge_with c = do
    undo (codes "iptables") (edge_hook c)
        ((words "-t mangle -D PREROUTING" ++ edge_selector c) ∷ [])
    undo (codes "iptables") (words "-t mangle -S" ++ (c.chain ∷ []))
        ((words "-t mangle -F" ++ (c.chain ∷ [])) ∷ (words "-t mangle -X" ++ (c.chain ∷ [])) ∷ [])
    delete_owned_ip_rule rule_parsers runner (rule_key c)
    shown ← runner.output (codes "ip") (words "route show table" ++ (c.table ∷ []))
    remove_default c shown
    set_allowed runner c (join c.base_allowed (codes ","))

  unfoldable pub cleanup_linux_exit_with : Text → Io W (Unit {0})
  unfolding words
  cleanup_linux_exit_with chain = do
    undo (codes "iptables") (words "-C FORWARD -j" ++ (chain ∷ []))
        ((words "-D FORWARD -j" ++ (chain ∷ [])) ∷ [])
    undo (codes "iptables") (words "-t nat -C POSTROUTING -j" ++ (nat_chain_of chain ∷ []))
        ((words "-t nat -D POSTROUTING -j" ++ (nat_chain_of chain ∷ [])) ∷ [])
    undo (codes "iptables") (words "-S" ++ (chain ∷ []))
        ((words "-F" ++ (chain ∷ [])) ∷ (words "-X" ++ (chain ∷ [])) ∷ [])
    undo (codes "iptables") (words "-t nat -S" ++ (nat_chain_of chain ∷ [])) (
        (words "-t nat -F" ++ (nat_chain_of chain ∷ []))
        ∷ (words "-t nat -X" ++ (nat_chain_of chain ∷ []))
        ∷ [])

  unfoldable pub cleanup_linux_exit : ApplyConfig → Io W (Unit {0})
  cleanup_linux_exit c = cleanup_linux_exit_with (with_chain (codes "STREAM_EXIT") c).chain

  unfoldable pub cleanup_openwrt : ApplyConfig → Io W (Unit {0})
  unfolding words
  cleanup_openwrt c = do
    run_allow_missing (codes "uci") (codes "delete" ∷ pbr_option c ∷ [])
    run_allow_missing (codes "uci") (codes "delete" ∷ firewall_option c ∷ [])
    runner.run (codes "uci") (words "commit pbr")
    runner.run (codes "uci") (words "commit firewall")
    runner.run (codes "/etc/init.d/firewall") (codes "reload" ∷ [])
    runner.run (codes "/etc/init.d/pbr") (codes "reload" ∷ [])

  -- An unknown driver is passed over.
  unfoldable pub cleanup_one : ApplyConfig → List Text → Io W (Unit {0})
  unfolding text_eq
  cleanup_one c state =
      if text_eq c.driver (codes "nft-exit")
      then cleanup_nft (with_chain (codes "netflix_exit") c)
      else if text_eq c.driver (codes "wg-route")
      then cleanup_wg_route c state
      else if text_eq c.driver (codes "linux-edge")
      then cleanup_edge_with (with_edge_defaults c)
      else if text_eq c.driver (codes "linux-exit")
      then cleanup_linux_exit c
      else if text_eq c.driver (codes "openwrt-pbr")
      then cleanup_openwrt c
      else pure tt

  unfoldable pub cleanup_all : List ApplyConfig → List Text → Io W (Unit {0})
  cleanup_all [] state = pure tt
  cleanup_all (c ∷ cs) state = do cleanup_one c state; cleanup_all cs state

  unfoldable pub cleanup : Config → Io W (Unit {0})
  cleanup config = do
    state ← λ w. (w, file_lines (system.read_file config.state_file w))
    cleanup_all (reverse config.apply) state
