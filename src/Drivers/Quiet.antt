-- ===== src/Drivers/Quiet.antt =====
-- What the drivers leave alone: nftables outside one transaction, and OpenWrt's lists and services if
-- they are as they should be.
use netflix_pbrd.Base.{
  suc, length, ◌≡◌, refl, ap, Bool, true, false, List, [], ◌∷◌, ◌++◌, append_assoc, map, Text, ok,
  codes, arith,
}
use netflix_pbrd.Text.Words.{words, text_of}
use netflix_pbrd.Config.{ApplyConfig}
use netflix_pbrd.Networks.{validate_networks}
use netflix_pbrd.Networks.Files.{equal_refl}
use netflix_pbrd.Runner.{Runner}
use netflix_pbrd.Drivers.Commands.{is_success, succeeds}
use netflix_pbrd.Drivers.Exit.{apply_nft_exit, apply_nft_exit_with, nft_transaction, with_chain}
use netflix_pbrd.Drivers.OpenWrt.{
  reconcile_openwrt, read_uci_list, pbr_option, firewall_option, is_empty_list, read_output,
  read_values, field_limit, ensure_services, ensure_running,
}
use netflix_pbrd.Drivers.Journal.{Entry, journaled}
use netflix_pbrd.Text.{join}
use netflix_pbrd.Text.Ink.{fields-join}
use netflix_pbrd.Networks.Saved.{All-IsWord}
use netflix_pbrd.Networks.Merging.{IsNetworkSet}
use netflix_pbrd.Networks.Validation.{validate_networks_of_set}

-- The lines that `nft -f` must be given: the deletion of the table if there is one, and then a table of
-- its own with the set of networks, their elements if there are any, and the two chains with their rules.
abbrev deletion_lines : Bool → Text → List Text
deletion_lines true chain = (codes "delete table inet " ++ chain) ∷ []
deletion_lines false chain = []

abbrev element_lines : Text → List Text → List Text
element_lines chain [] = []
element_lines chain (network ∷ nets) =
    (codes "add element inet "
      ++ (chain
          ++ (codes " destinations { " ++ (join (network ∷ nets) (codes ", ") ++ codes " }"))))
    ∷ []

abbrev transaction_lines : Bool → ApplyConfig → List Text → List Text
transaction_lines present c nets =
    deletion_lines present c.chain
    ++ ((codes "add table inet " ++ c.chain)
        ∷ (codes "add set inet "
            ++ (c.chain ++ codes " destinations { type ipv4_addr; flags interval; }"))
        ∷ (element_lines c.chain nets
            ++ ((codes "add chain inet "
                  ++ (c.chain
                      ++ codes
                          " forward { type filter hook forward priority -10; policy accept; }"))
                ∷ (codes "add rule inet "
                    ++ (c.chain
                        ++ (codes " forward ip saddr "
                            ++ (c.source_net ++ codes " ip daddr @destinations accept"))))
                ∷ (codes "add rule inet "
                    ++ (c.chain ++ (codes " forward ip saddr " ++ (c.source_net ++ codes " drop"))))
                ∷ (codes "add chain inet "
                    ++ (c.chain
                        ++ codes
                            " postrouting { type nat hook postrouting priority 100; policy accept; }"))
                ∷ (codes "add rule inet "
                    ++ (c.chain
                        ++ (codes " postrouting ip saddr "
                            ++ (c.source_net
                                ++ (codes " ip daddr @destinations oifname \""
                                    ++ (c.wan_interface ++ codes "\" masquerade"))))))
                ∷ [])))

abbrev ended : Text → Text
ended line = line ++ codes "\n"

nft_transaction-lines :
    (present : Bool) (c : ApplyConfig) (nets : List Text)
    → nft_transaction present c nets ≡ text_of (map ended (transaction_lines present c nets))
unfolding nft_transaction
nft_transaction-lines true c [] = simp append_assoc
nft_transaction-lines true c (network ∷ nets) = simp append_assoc
nft_transaction-lines false c [] = simp append_assoc
nft_transaction-lines false c (network ∷ nets) = simp append_assoc

-- The two entries of the nftables driver: the probe, and the transaction that its answer leads to.
abbrev pub nft_probe : ApplyConfig → Bool → Entry
nft_probe c present = record {
  name = codes "nft";
  args = words "list table inet" ++ (c.chain ∷ []);
  input = [];
  succeeded = present;
}

abbrev pub nft_change : ApplyConfig → List Text → Bool → Bool → Entry
nft_change c nets present done = record {
  name = codes "nft";
  args = words "-f -";
  input = text_of (map ended (transaction_lines present c nets));
  succeeded = done;
}

-- Whatever the commands answer, nft-exit runs two commands: it asks whether its table is there, and
-- hands `nft` one transaction of these lines: the deletion of the table exactly if the probe found
-- it, then the table, the set, one line with all networks unless there are none, and the two chains
-- with the rules that accept the networks of the set, drop the rest and masquerade. The driver
-- succeeds exactly if the transaction does.
pub apply_nft_exit-journal :
    {W : Type 0} (runner : Runner W) (c : ApplyConfig) (nets : List Text) (w : W)
    → (present : Bool) × (done : Bool) × ((apply_nft_exit (journaled runner) c nets ([], w)).0.0
        ≡ nft_change (with_chain (codes "netflix_exit") c) nets present done
          ∷ nft_probe (with_chain (codes "netflix_exit") c) present
          ∷ [])
      × (is_success (apply_nft_exit (journaled runner) c nets ([], w)).1 ≡ done)
unfolding apply_nft_exit apply_nft_exit_with succeeds
apply_nft_exit-journal {W} runner c nets w =
    let d = with_chain (codes "netflix_exit") c in
    let probed = runner.run (codes "nft") (words "list table inet" ++ (d.chain ∷ [])) w in
    let present = is_success probed.1 in
    let changed =
      runner.run_input (nft_transaction present d nets) (codes "nft") (words "-f -") probed.0 in
    (
      present,
      is_success changed.1,
      ap
          (λ input.
            record {
              name = codes "nft";
              args = words "-f -";
              input = input;
              succeeded = is_success changed.1;
            }
            ∷ nft_probe d present
            ∷ [])
          (nft_transaction-lines present d nets),
      refl,
    )

read_output-join :
    (nets : List Text) (absent_ok : Bool)
    → IsNetworkSet nets
    → read_output absent_ok (ok (join nets (codes " ") ++ codes "\n")) ≡ (nets, true)
read_output-join nets absent_ok h =
    rw (fields-join nets (All-IsWord nets h.forms)) (ap read_values (fits nets h))
  where
    fits :
        (nets : List Text)
        → IsNetworkSet nets
        → validate_networks nets false (field_limit nets) ≡ ok nets
    fits [] h = validate_networks_of_set [] 1 h (omega arith)
    fits (x ∷ xs) h = validate_networks_of_set (x ∷ xs) (suc (length xs)) h (ground arith)

module _ {W : Type 0} (runner : Runner W) (c : ApplyConfig) (nets : List Text) where
  -- What `uci get` prints of a list: its values between blanks, and a newline.
  abbrev pub Holds : Text → W → Type 0
  Holds option w =
      runner.output (codes "uci") (codes "-q" ∷ codes "get" ∷ option ∷ []) w
      ≡ (w, ok (join nets (codes " ") ++ codes "\n"))

  abbrev pub Runs : Text → W → Type 0
  Runs service w = runner.run (codes "/etc/init.d/" ++ service) (codes "status" ∷ []) w ≡ (w, ok tt)

  -- Where both lists of UCI hold the networks of the set, and both services answer that they run, the
  -- periodic reapplication of openwrt-pbr succeeds and changes nothing.
  pub reconcile_openwrt_settled :
      (w : W)
      → IsNetworkSet nets
      → Holds (pbr_option c) w
      → Holds (firewall_option c) w
      → Runs (codes "firewall") w
      → Runs (codes "pbr") w
      → reconcile_openwrt runner c nets w ≡ (w, ok tt)
  unfolding reconcile_openwrt read_uci_list ensure_services ensure_running succeeds
  reconcile_openwrt_settled w h pbr firewall f p =
      rw (pbr, firewall, read_output-join nets (is_empty_list nets) h, equal_refl nets, f, p) refl
