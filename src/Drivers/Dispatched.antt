-- ===== src/Drivers/Dispatched.antt =====
-- What `applyNetworks` and `reapplyNetworks` keep, whichever driver they run.
use netflix_pbrd.Base.{
  not, List, [], ◌∷◌, ◌++◌, map, Text, ◌>>=◌, ◌>>◌, fail, catch, Result, Keeps, Keeps->>=, Keeps->>,
  Keeps-if, Keeps-catch, if◌then◌else◌, codes, quoted,
}
use netflix_pbrd.Text.{text_eq}
use netflix_pbrd.Text.Words.{words}
use netflix_pbrd.Config.{ApplyConfig}
use netflix_pbrd.Runner.{Runner}
use netflix_pbrd.Drivers.Commands.{succeeds, route_batch, restore_iptables, ensure_chain, allowed}
use netflix_pbrd.Drivers.Rules.{RuleParsers, ensure_ip_rule}
use netflix_pbrd.Drivers.Edge.{
  with_edge_defaults, rule_key, edge_restore, default_route, wg_route, edge_hook, set_allowed,
  apply_wg_route, hook_edge, apply_edge_with, apply_edge,
}
use netflix_pbrd.Drivers.Exit.{
  with_chain, nft_transaction, apply_nft_exit_with, apply_nft_exit, apply_exit,
}
use netflix_pbrd.Drivers.OpenWrt.{firewall_option, init, add_all, apply_openwrt}
use netflix_pbrd.Drivers.Dispatch.{apply_networks}
use netflix_pbrd.Drivers.Kept.{
  CommandsKeep, succeeds-Keeps, probing-Keeps, route_batch-Keeps, restore_iptables-Keeps,
  ensure_chain-Keeps, apply_exit_with-Keeps,
}
use netflix_pbrd.Drivers.RuleKept.{ensure_ip_rule-Keeps}

module _ {W : Type 0} (runner : Runner W) (P : W → Type 0) (keep : CommandsKeep runner P)
    (parsers : RuleParsers) where
  apply_edge_with-Keeps :
      (c : ApplyConfig) (nets : List Text) → Keeps P (apply_edge_with runner parsers c nets)
  unfolding apply_edge_with hook_edge
  apply_edge_with-Keeps c nets =
      Keeps->> P (route_batch runner (default_route c ∷ [])) behind_route
        (route_batch-Keeps runner P keep _)
        (Keeps->> P (ensure_ip_rule parsers runner (rule_key c)) behind_rule
          (ensure_ip_rule-Keeps runner P keep.runs keep.outputs parsers (rule_key c))
          (Keeps->> P (ensure_chain runner (codes "mangle") c.chain) behind_chain
            (ensure_chain-Keeps runner P keep (codes "mangle") c.chain)
            (Keeps->> P (restore_iptables runner (edge_restore c nets)) (hook_edge runner c)
              (restore_iptables-Keeps runner P keep (edge_restore c nets))
              (probing-Keeps runner P keep (codes "iptables") (edge_hook c) not _
                (keep.runs (codes "iptables") _)))))
    where
      behind_chain : W → W × Result (Unit {0})
      behind_chain = restore_iptables runner (edge_restore c nets) >> hook_edge runner c

      behind_rule : W → W × Result (Unit {0})
      behind_rule = ensure_chain runner (codes "mangle") c.chain >> behind_chain

      behind_route : W → W × Result (Unit {0})
      behind_route = ensure_ip_rule parsers runner (rule_key c) >> behind_rule

  apply_wg_route-Keeps :
      (c : ApplyConfig) (nets : List Text) → Keeps P (apply_wg_route runner c nets)
  unfolding apply_wg_route set_allowed
  apply_wg_route-Keeps c nets =
      Keeps->> P (set_allowed runner c (allowed c nets))
        (route_batch runner (map (wg_route c) nets)) (keep.runs (codes "wg") _)
        (route_batch-Keeps runner P keep _)

  apply_nft_exit-Keeps :
      (c : ApplyConfig) (nets : List Text) → Keeps P (apply_nft_exit runner c nets)
  unfolding apply_nft_exit apply_nft_exit_with
  apply_nft_exit-Keeps c nets =
      Keeps->>= P (succeeds runner (codes "nft") (words "list table inet" ++ (d.chain ∷ [])))
        (λ present. runner.run_input (nft_transaction present d nets) (codes "nft") (words "-f -"))
        (succeeds-Keeps runner P keep (codes "nft") _)
        (λ present. keep.inputs _ (codes "nft") (words "-f -"))
    where
      d : ApplyConfig
      d = with_chain (codes "netflix_exit") c

  add_all-Keeps : (option : Text) (nets : List Text) → Keeps P (add_all runner option nets)
  unfolding add_all
  add_all-Keeps option [] w p = p
  add_all-Keeps option (network ∷ nets) w p =
      Keeps->> P (runner.run (codes "uci") _) (add_all runner option nets)
        (keep.runs (codes "uci") _) (add_all-Keeps option nets) w p

  apply_openwrt-Keeps : (c : ApplyConfig) (nets : List Text) → Keeps P (apply_openwrt runner c nets)
  unfolding apply_openwrt
  apply_openwrt-Keeps c nets =
      Keeps->> P (runner.run (codes "uci") _) behind_set (keep.runs (codes "uci") _) (
        Keeps-catch P (runner.run (codes "uci") _) (λ _. behind_delete) (keep.runs (codes "uci") _)
          (λ _.
            Keeps->> P (add_all runner (firewall_option c) nets) commits
              (add_all-Keeps (firewall_option c) nets)
              (Keeps->> P (runner.run (codes "uci") (words "commit pbr")) behind_commit
                (keep.runs (codes "uci") _)
                (Keeps->> P (runner.run (codes "uci") (words "commit firewall")) reloads
                  (keep.runs (codes "uci") _)
                  (Keeps->> P (init runner (codes "firewall") (codes "reload"))
                    (init runner (codes "pbr") (codes "reload")) (keep.runs _ _)
                    (keep.runs _ _))))))
    where
      reloads : W → W × Result (Unit {0})
      reloads =
          init runner (codes "firewall") (codes "reload")
          >> init runner (codes "pbr") (codes "reload")

      behind_commit : W → W × Result (Unit {0})
      behind_commit = runner.run (codes "uci") (words "commit firewall") >> reloads

      commits : W → W × Result (Unit {0})
      commits = runner.run (codes "uci") (words "commit pbr") >> behind_commit

      behind_delete : W → W × Result (Unit {0})
      behind_delete = add_all runner (firewall_option c) nets >> commits

      behind_set : W → W × Result (Unit {0})
      behind_set =
          catch (runner.run (codes "uci") (codes "-q" ∷ codes "delete" ∷ firewall_option c ∷ []))
          >>= λ _. behind_delete

  -- A predicate that commands keep is kept by every driver.
  pub apply_networks-Keeps :
      (c : ApplyConfig) (nets : List Text) → Keeps P (apply_networks parsers runner c nets)
  unfolding apply_networks apply_edge apply_exit
  apply_networks-Keeps c nets =
      Keeps-if P (text_eq c.driver (codes "wg-route")) (apply_wg_route runner c nets) but_wg
        (apply_wg_route-Keeps c nets)
        (Keeps-if P (text_eq c.driver (codes "linux-edge")) (apply_edge runner parsers c nets)
          but_edge (apply_edge_with-Keeps (with_edge_defaults c) nets)
          (Keeps-if P (text_eq c.driver (codes "openwrt-pbr")) (apply_openwrt runner c nets)
            but_openwrt (apply_openwrt-Keeps c nets)
            (Keeps-if P (text_eq c.driver (codes "linux-exit")) (apply_exit runner c nets) but_exit
              (apply_exit_with-Keeps runner P keep (with_chain (codes "STREAM_EXIT") c) nets)
              (Keeps-if P (text_eq c.driver (codes "nft-exit")) (apply_nft_exit runner c nets)
                unknown (apply_nft_exit-Keeps c nets) (λ w p. p)))))
    where
      unknown : W → W × Result (Unit {0})
      unknown = fail (quoted (codes "unknown driver ") c.driver)

      but_exit : W → W × Result (Unit {0})
      but_exit =
          if text_eq c.driver (codes "nft-exit") then apply_nft_exit runner c nets else unknown

      but_openwrt : W → W × Result (Unit {0})
      but_openwrt =
          if text_eq c.driver (codes "linux-exit") then apply_exit runner c nets else but_exit

      but_edge : W → W × Result (Unit {0})
      but_edge =
          if text_eq c.driver (codes "openwrt-pbr")
          then apply_openwrt runner c nets
          else but_openwrt

      but_wg : W → W × Result (Unit {0})
      but_wg =
          if text_eq c.driver (codes "linux-edge")
          then apply_edge runner parsers c nets
          else but_edge
