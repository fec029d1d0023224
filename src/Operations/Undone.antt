-- ===== src/Operations/Undone.antt =====
-- What `Cleanup` keeps of the world, driver by driver.
use netflix_pbrd.Base.{
  List, [], ◌∷◌, ◌++◌, Text, ◌>>=◌, ◌>>◌, pure, Result, Keeps, Keeps->>=, Keeps->>, Keeps-if,
  Keeps-when, if◌then◌else◌, codes,
}
use mathlib.Core.List.{reverse}
use netflix_pbrd.Text.{text_eq, join, contains_text}
use netflix_pbrd.Text.Words.{words}
use netflix_pbrd.Config.{ApplyConfig, Config}
use netflix_pbrd.Runtime.Daemon.{file_lines}
use netflix_pbrd.Drivers.Rules.{delete_owned_ip_rule}
use netflix_pbrd.Drivers.Edge.{rule_key, set_allowed, with_edge_defaults}
use netflix_pbrd.Drivers.Exit.{with_chain, nat_chain_of}
use netflix_pbrd.Drivers.OpenWrt.{firewall_option}
use netflix_pbrd.Operations.Machine.{Machine}
use netflix_pbrd.Operations.Cleanup.{
  undo, cleanup_nft, remove_routes, cleanup_wg_route, remove_default, cleanup_edge_with,
  cleanup_linux_exit_with, cleanup_linux_exit, cleanup_openwrt, run_allow_missing, cleanup_one,
  cleanup_all, cleanup,
}
use netflix_pbrd.Operations.Kept.{
  IsSteady, undo-Keeps, run_allow_missing-Keeps, remove_routes-Keeps, set_allowed-Keeps,
}
use netflix_pbrd.Drivers.RuleKept.{delete_owned_ip_rule-Keeps}

module _ {W : Type 0} (m : Machine W) (P : W → Type 0) (steady : IsSteady m P) where
  undoing :
      (name : Text) (probe : List Text) (commands : List (List Text))
      → Keeps P (undo m name probe commands)
  undoing = undo-Keeps m P steady.runs steady.outputs

  cleanup_wg_route-Keeps :
      (c : ApplyConfig) (state : List Text) → Keeps P (cleanup_wg_route m c state)
  unfolding cleanup_wg_route
  cleanup_wg_route-Keeps c state =
      Keeps->> P (set_allowed m.runner c (join c.base_allowed (codes ",")))
        (remove_routes m c state) (set_allowed-Keeps m P steady.runs steady.outputs c _)
        (remove_routes-Keeps m P steady.runs steady.outputs c state)

  cleanup_edge_with-Keeps : (c : ApplyConfig) → Keeps P (cleanup_edge_with m c)
  unfolding cleanup_edge_with
  cleanup_edge_with-Keeps c =
      Keeps->> P (undo m (codes "iptables") _ _) behind_hook (undoing (codes "iptables") _ _) (
        Keeps->> P (undo m (codes "iptables") _ _) behind_chain (undoing (codes "iptables") _ _) (
          Keeps->> P (delete_owned_ip_rule m.rule_parsers m.runner (rule_key c)) behind_rule
            (delete_owned_ip_rule-Keeps m.runner P steady.runs steady.outputs m.rule_parsers
              (rule_key c))
            (Keeps->>= P (m.runner.output (codes "ip") (words "route show table" ++ (c.table ∷ [])))
              behind_shown
              (steady.outputs (codes "ip") (words "route show table" ++ (c.table ∷ [])))
              (λ shown.
                Keeps->> P (remove_default m c shown)
                  (set_allowed m.runner c (join c.base_allowed (codes ",")))
                  (Keeps-when P (contains_text shown (codes "default")) _
                    (steady.runs (codes "ip") _))
                  (set_allowed-Keeps m P steady.runs steady.outputs c _)))))
    where
      behind_shown : Text → W → W × Result (Unit {0})
      behind_shown shown =
          remove_default m c shown >> set_allowed m.runner c (join c.base_allowed (codes ","))

      behind_rule : W → W × Result (Unit {0})
      behind_rule =
          m.runner.output (codes "ip") (words "route show table" ++ (c.table ∷ [])) >>= behind_shown

      behind_chain : W → W × Result (Unit {0})
      behind_chain = delete_owned_ip_rule m.rule_parsers m.runner (rule_key c) >> behind_rule

      behind_hook : W → W × Result (Unit {0})
      behind_hook =
          undo m (codes "iptables") (words "-t mangle -S" ++ (c.chain ∷ [])) (
            (words "-t mangle -F" ++ (c.chain ∷ []))
            ∷ (words "-t mangle -X" ++ (c.chain ∷ []))
            ∷ [])
          >> behind_chain

  cleanup_linux_exit_with-Keeps : (chain : Text) → Keeps P (cleanup_linux_exit_with m chain)
  unfolding cleanup_linux_exit_with
  cleanup_linux_exit_with-Keeps chain =
      Keeps->> P (undo m (codes "iptables") _ _) behind_filter (undoing (codes "iptables") _ _) (
        Keeps->> P (undo m (codes "iptables") _ _) behind_nat (undoing (codes "iptables") _ _) (
          Keeps->> P (undo m (codes "iptables") _ _) nat_chain (undoing (codes "iptables") _ _)
            (undoing (codes "iptables") _ _)))
    where
      nat_chain : W → W × Result (Unit {0})
      nat_chain = undo m (codes "iptables") (words "-t nat -S" ++ (nat_chain_of chain ∷ [])) (
          (words "-t nat -F" ++ (nat_chain_of chain ∷ []))
          ∷ (words "-t nat -X" ++ (nat_chain_of chain ∷ []))
          ∷ [])

      behind_nat : W → W × Result (Unit {0})
      behind_nat =
          undo m (codes "iptables") (words "-S" ++ (chain ∷ []))
            ((words "-F" ++ (chain ∷ [])) ∷ (words "-X" ++ (chain ∷ [])) ∷ [])
          >> nat_chain

      behind_filter : W → W × Result (Unit {0})
      behind_filter =
          undo m (codes "iptables") (words "-t nat -C POSTROUTING -j" ++ (nat_chain_of chain ∷ []))
            ((words "-t nat -D POSTROUTING -j" ++ (nat_chain_of chain ∷ [])) ∷ [])
          >> behind_nat

  cleanup_openwrt-Keeps : (c : ApplyConfig) → Keeps P (cleanup_openwrt m c)
  unfolding cleanup_openwrt
  cleanup_openwrt-Keeps c =
      Keeps->> P (run_allow_missing m (codes "uci") _) behind_pbr
        (run_allow_missing-Keeps m P steady.runs steady.outputs (codes "uci") _)
        (Keeps->> P (run_allow_missing m (codes "uci") _) commits
          (run_allow_missing-Keeps m P steady.runs steady.outputs (codes "uci") _)
          (Keeps->> P (m.runner.run (codes "uci") (words "commit pbr")) behind_commit
            (steady.runs (codes "uci") _)
            (Keeps->> P (m.runner.run (codes "uci") (words "commit firewall")) reloads
              (steady.runs (codes "uci") _)
              (Keeps->> P (m.runner.run (codes "/etc/init.d/firewall") (codes "reload" ∷ []))
                reload_pbr (steady.runs (codes "/etc/init.d/firewall") _)
                (steady.runs (codes "/etc/init.d/pbr") _)))))
    where
      reload_pbr : W → W × Result (Unit {0})
      reload_pbr = m.runner.run (codes "/etc/init.d/pbr") (codes "reload" ∷ [])

      reloads : W → W × Result (Unit {0})
      reloads = m.runner.run (codes "/etc/init.d/firewall") (codes "reload" ∷ []) >> reload_pbr

      behind_commit : W → W × Result (Unit {0})
      behind_commit = m.runner.run (codes "uci") (words "commit firewall") >> reloads

      commits : W → W × Result (Unit {0})
      commits = m.runner.run (codes "uci") (words "commit pbr") >> behind_commit

      behind_pbr : W → W × Result (Unit {0})
      behind_pbr =
          run_allow_missing m (codes "uci") (codes "delete" ∷ firewall_option c ∷ []) >> commits

  cleanup_one-Keeps : (c : ApplyConfig) (state : List Text) → Keeps P (cleanup_one m c state)
  unfolding cleanup_one cleanup_nft cleanup_linux_exit
  cleanup_one-Keeps c state =
      Keeps-if P (text_eq c.driver (codes "nft-exit"))
        (cleanup_nft m (with_chain (codes "netflix_exit") c)) but_nft (undoing (codes "nft") _ _)
        (Keeps-if P (text_eq c.driver (codes "wg-route")) (cleanup_wg_route m c state) but_wg
          (cleanup_wg_route-Keeps c state)
          (Keeps-if P (text_eq c.driver (codes "linux-edge"))
            (cleanup_edge_with m (with_edge_defaults c)) but_edge
            (cleanup_edge_with-Keeps (with_edge_defaults c))
            (Keeps-if P (text_eq c.driver (codes "linux-exit")) (cleanup_linux_exit m c) but_exit
              (cleanup_linux_exit_with-Keeps (with_chain (codes "STREAM_EXIT") c).chain)
              (Keeps-if P (text_eq c.driver (codes "openwrt-pbr")) (cleanup_openwrt m c) (pure tt)
                (cleanup_openwrt-Keeps c) (λ w p. p)))))
    where
      but_exit : W → W × Result (Unit {0})
      but_exit = if text_eq c.driver (codes "openwrt-pbr") then cleanup_openwrt m c else pure tt

      but_edge : W → W × Result (Unit {0})
      but_edge = if text_eq c.driver (codes "linux-exit") then cleanup_linux_exit m c else but_exit

      but_wg : W → W × Result (Unit {0})
      but_wg =
          if text_eq c.driver (codes "linux-edge")
          then cleanup_edge_with m (with_edge_defaults c)
          else but_edge

      but_nft : W → W × Result (Unit {0})
      but_nft = if text_eq c.driver (codes "wg-route") then cleanup_wg_route m c state else but_wg

  cleanup_all-Keeps : (cs : List ApplyConfig) (state : List Text) → Keeps P (cleanup_all m cs state)
  unfolding cleanup_all
  cleanup_all-Keeps [] state w p = p
  cleanup_all-Keeps (c ∷ cs) state w p =
      Keeps->> P (cleanup_one m c state) (cleanup_all m cs state) (cleanup_one-Keeps c state)
        (cleanup_all-Keeps cs state) w p

  pub cleanup-Keeps : (config : Config) → Keeps P (cleanup m config)
  unfolding cleanup
  cleanup-Keeps config w p =
      Keeps->>= P (λ w. (w, file_lines (m.system.read_file config.state_file w)))
        (cleanup_all m (reverse config.apply)) (λ w p. p)
        (λ state. cleanup_all-Keeps (reverse config.apply) state) w p
