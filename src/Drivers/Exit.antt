-- ===== src/Drivers/Exit.antt =====
-- The drivers of the exit: what may be forwarded, by iptables or by nftables.
use netflix_pbrd.Base.{
  Bool, true, false, not, List, [], ◌∷◌, ◌++◌, map, Text, Io, ◌>>=◌, ◌>>◌, when, codes,
}
use netflix_pbrd.Text.{join}
use netflix_pbrd.Text.Words.{words, text_of}
use netflix_pbrd.Config.{ApplyConfig}
use netflix_pbrd.Runner.{Runner}
use netflix_pbrd.Drivers.Commands.{or_default, succeeds, restore_iptables, ensure_chain}

abbrev pub accept_rule : Text → Text → Text → Text
accept_rule chain source network = text_of (
    codes "-A "
    ∷ chain
    ∷ codes " -s "
    ∷ source
    ∷ codes " -d "
    ∷ network
    ∷ codes " -j ACCEPT\n"
    ∷ [])

abbrev pub masquerade_rule : Text → Text → Text → Text → Text
masquerade_rule chain source wan network = text_of (
    codes "-A "
    ∷ chain
    ∷ codes " -s "
    ∷ source
    ∷ codes " -d "
    ∷ network
    ∷ codes " -o "
    ∷ wan
    ∷ codes " -j MASQUERADE\n"
    ∷ [])

-- The input of iptables-restore.
unfoldable pub exit_restore : ApplyConfig → Text → List Text → Text
exit_restore c nat_chain nets = text_of (
    codes "*filter\n-F "
    ∷ c.chain
    ∷ codes "\n"
    ∷ text_of (map (accept_rule c.chain c.source_net) nets)
    ∷ codes "-A "
    ∷ c.chain
    ∷ codes " -s "
    ∷ c.source_net
    ∷ codes " -j DROP\n"
    ∷ codes "-A "
    ∷ c.chain
    ∷ codes " -j RETURN\nCOMMIT\n"
    ∷ codes "*nat\n-F "
    ∷ nat_chain
    ∷ codes "\n"
    ∷ text_of (map (masquerade_rule nat_chain c.source_net c.wan_interface) nets)
    ∷ codes "-A "
    ∷ nat_chain
    ∷ codes " -j RETURN\nCOMMIT\n"
    ∷ [])

abbrev pub nat_chain_of : Text → Text
nat_chain_of chain = chain ++ codes "_NAT"

unfoldable pub legacy_rule : Text → ApplyConfig → List Text
unfolding words
legacy_rule action c =
    codes "-t"
    ∷ codes "nat"
    ∷ action
    ∷ codes "POSTROUTING"
    ∷ codes "-s"
    ∷ c.source_net
    ∷ codes "-o"
    ∷ c.wan_interface
    ∷ codes "-j"
    ∷ codes "MASQUERADE"
    ∷ []

abbrev pub set_line : Text → Text → Text
set_line chain rest = text_of (codes "add set inet " ∷ chain ∷ codes " destinations" ∷ rest ∷ [])

abbrev pub elements_line : Text → List Text → Text
elements_line chain [] = []
elements_line chain (network ∷ nets) = text_of (
    codes "add element inet "
    ∷ chain
    ∷ codes " destinations { "
    ∷ join (network ∷ nets) (codes ", ")
    ∷ codes " }\n"
    ∷ [])

abbrev pub delete_line : Bool → Text → Text
delete_line true chain = text_of (codes "delete table inet " ∷ chain ∷ codes "\n" ∷ [])
delete_line false chain = []

-- What `nft -f` is given: one transaction.
unfoldable pub nft_transaction : Bool → ApplyConfig → List Text → Text
unfolding join
nft_transaction present c nets = text_of (
    delete_line present c.chain
    ∷ text_of (codes "add table inet " ∷ c.chain ∷ codes "\n" ∷ [])
    ∷ set_line c.chain (codes " { type ipv4_addr; flags interval; }\n")
    ∷ elements_line c.chain nets
    ∷ text_of (
        codes "add chain inet "
        ∷ c.chain
        ∷ codes " forward { type filter hook forward priority -10; policy accept; }\n"
        ∷ [])
    ∷ text_of (
        codes "add rule inet "
        ∷ c.chain
        ∷ codes " forward ip saddr "
        ∷ c.source_net
        ∷ codes " ip daddr @destinations accept\n"
        ∷ [])
    ∷ text_of (
        codes "add rule inet "
        ∷ c.chain
        ∷ codes " forward ip saddr "
        ∷ c.source_net
        ∷ codes " drop\n"
        ∷ [])
    ∷ text_of (
        codes "add chain inet "
        ∷ c.chain
        ∷ codes " postrouting { type nat hook postrouting priority 100; policy accept; }\n"
        ∷ [])
    ∷ text_of (
        codes "add rule inet "
        ∷ c.chain
        ∷ codes " postrouting ip saddr "
        ∷ c.source_net
        ∷ codes " ip daddr @destinations oifname \""
        ∷ c.wan_interface
        ∷ codes "\" masquerade\n"
        ∷ [])
    ∷ [])

abbrev pub with_chain : Text → ApplyConfig → ApplyConfig
with_chain fallback c = record c { chain = or_default c.chain fallback }

module _ {W : Type 0} (runner : Runner W) where
  open runner use {run, run_input}

  unfoldable pub apply_nft_exit_with : ApplyConfig → List Text → Io W (Unit {0})
  unfolding words
  apply_nft_exit_with c nets = do
    present ← succeeds runner (codes "nft") (words "list table inet" ++ (c.chain ∷ []))
    run_input (nft_transaction present c nets) (codes "nft") (words "-f -")

  unfoldable pub apply_nft_exit : ApplyConfig → List Text → Io W (Unit {0})
  apply_nft_exit c nets = apply_nft_exit_with (with_chain (codes "netflix_exit") c) nets

  -- Without the rule that an older version masqueraded everything with.
  unfoldable pub remove_legacy : ApplyConfig → Io W (Unit {0})
  remove_legacy c = do
    legacy ← succeeds runner (codes "iptables") (legacy_rule (codes "-C") c)
    when legacy (run (codes "iptables") (legacy_rule (codes "-D") c))

  unfoldable pub hook_filter : Text → Io W (Unit {0})
  unfolding words
  hook_filter chain = do
    hooked ← succeeds runner (codes "iptables") (words "-C FORWARD -j" ++ (chain ∷ []))
    when (not hooked) (run (codes "iptables") (words "-I FORWARD 1 -j" ++ (chain ∷ [])))

  unfoldable pub hook_nat : Text → Io W (Unit {0})
  unfolding words
  hook_nat nat_chain = do
    hooked ←
        succeeds runner (codes "iptables") (words "-t nat -C POSTROUTING -j" ++ (nat_chain ∷ []))
    when (not hooked)
        (run (codes "iptables") (words "-t nat -I POSTROUTING 1 -j" ++ (nat_chain ∷ [])))

  unfoldable pub apply_exit_with : ApplyConfig → List Text → Io W (Unit {0})
  apply_exit_with c nets = do
    ensure_chain runner (codes "filter") c.chain
    ensure_chain runner (codes "nat") (nat_chain_of c.chain)
    remove_legacy c
    restore_iptables runner (exit_restore c (nat_chain_of c.chain) nets)
    hook_filter c.chain
    hook_nat (nat_chain_of c.chain)

  unfoldable pub apply_exit : ApplyConfig → List Text → Io W (Unit {0})
  apply_exit c nets = apply_exit_with (with_chain (codes "STREAM_EXIT") c) nets
