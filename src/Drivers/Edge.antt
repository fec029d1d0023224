-- ===== src/Drivers/Edge.antt =====
-- The drivers of the edge: routes into the tunnel, by AllowedIPs or by a mark.
use netflix_pbrd.Base.{
  not, List, [], ◌∷◌, ◌++◌, map, Text, Io, ◌>>=◌, ◌>>◌, when, codes, if◌then◌else◌,
}
use netflix_pbrd.Text.{text_eq}
use netflix_pbrd.Text.Words.{words, text_of}
use netflix_pbrd.Config.{ApplyConfig}
use netflix_pbrd.Runner.{Runner}
use netflix_pbrd.Drivers.Commands.{
  or_default, allowed, succeeds, route_batch, restore_iptables, ensure_chain,
}
use netflix_pbrd.Drivers.Rules.{RuleKey, RuleParsers, ensure_ip_rule}

unfoldable pub with_edge_defaults : ApplyConfig → ApplyConfig
with_edge_defaults c = record c {
  chain = or_default c.chain (codes "STREAM_PBR");
  table = or_default c.table (codes "202");
  mark = or_default c.mark (codes "0x20000000");
  mask = or_default c.mask (codes "0xff000000");
  rule_priority = or_default c.rule_priority (codes "12020");
  input_interface = or_default c.input_interface (codes "br+");
}

abbrev pub rule_key : ApplyConfig → RuleKey
rule_key c = record { priority = c.rule_priority; mark = c.mark; mask = c.mask; table = c.table }

abbrev pub edge_rule : ApplyConfig → Text → Text
edge_rule c network = text_of (
    codes "-A "
    ∷ c.chain
    ∷ codes " -d "
    ∷ network
    ∷ codes " -j MARK --set-xmark "
    ∷ c.mark
    ∷ codes "/"
    ∷ c.mask
    ∷ codes "\n"
    ∷ [])

-- The input of iptables-restore.
unfoldable pub edge_restore : ApplyConfig → List Text → Text
edge_restore c nets = text_of (
    codes "*mangle\n-F "
    ∷ c.chain
    ∷ codes "\n"
    ∷ text_of (map (edge_rule c) nets)
    ∷ codes "COMMIT\n"
    ∷ [])

abbrev pub route_target : ApplyConfig → Text
route_target c =
    let device = codes "dev " ++ c.interface in
    if text_eq c.next_hop (codes "")
    then device
    else text_of (codes "via " ∷ c.next_hop ∷ codes " " ∷ device ∷ codes " onlink" ∷ [])

unfoldable pub default_route : ApplyConfig → Text
unfolding text_eq
default_route c =
    text_of (codes "route replace default " ∷ route_target c ∷ codes " table " ∷ c.table ∷ [])

abbrev pub wg_route : ApplyConfig → Text → Text
wg_route c network = text_of (codes "route replace " ∷ network ∷ codes " dev " ∷ c.interface ∷ [])

abbrev pub edge_selector : ApplyConfig → List Text
edge_selector c =
    codes "-i" ∷ c.input_interface ∷ codes "-s" ∷ c.source_net ∷ codes "-j" ∷ c.chain ∷ []

unfoldable pub edge_hook : ApplyConfig → List Text
unfolding words
edge_hook c = words "-t mangle -C PREROUTING" ++ edge_selector c

unfoldable pub edge_insert : ApplyConfig → List Text
unfolding words
edge_insert c = words "-t mangle -I PREROUTING 1" ++ edge_selector c

module _ {W : Type 0} (runner : Runner W) where
  open runner use {run}

  unfoldable pub set_allowed : ApplyConfig → Text → Io W (Unit {0})
  unfolding words
  set_allowed c networks =
      run (codes "wg")
        (codes "set" ∷ c.interface ∷ codes "peer" ∷ c.peer ∷ codes "allowed-ips" ∷ networks ∷ [])

  unfoldable pub apply_wg_route : ApplyConfig → List Text → Io W (Unit {0})
  apply_wg_route c nets = do
    set_allowed c (allowed c nets)
    route_batch runner (map (wg_route c) nets)

  unfoldable pub hook_edge : ApplyConfig → Io W (Unit {0})
  hook_edge c = do
    hooked ← succeeds runner (codes "iptables") (edge_hook c)
    when (not hooked) (run (codes "iptables") (edge_insert c))

  -- The driver behind its defaults.
  unfoldable pub apply_edge_with : RuleParsers → ApplyConfig → List Text → Io W (Unit {0})
  apply_edge_with parsers c nets = do
    route_batch runner (default_route c ∷ [])
    ensure_ip_rule parsers runner (rule_key c)
    ensure_chain runner (codes "mangle") c.chain
    restore_iptables runner (edge_restore c nets)
    hook_edge c

  unfoldable pub apply_edge : RuleParsers → ApplyConfig → List Text → Io W (Unit {0})
  apply_edge parsers c nets = apply_edge_with parsers (with_edge_defaults c) nets
