-- ===== src/Tests/DriverExamples.antt =====
-- The theorems on the drivers at concrete inputs. The kernel's rules are a number of rules of the
-- driver, and whether there is one of another owner.
use netflix_pbrd.Base.{
  ℕ, zero, suc, ◌≡◌, refl, ap, Bool, true, false, List, [], ◌∷◌, ◌++◌, Text, none, Result, ok, err,
  text, codes, if◌then◌else◌, arith, ◌==◌,
}
use netflix_pbrd.Text.{text_eq, trim_space, trim_suffix, has_suffix, join, cut}
use netflix_pbrd.Net.{parse_cidr, parse_ip, parse_addr, to4, mask_size, net_of}
use netflix_pbrd.Runner.{Runner}
use netflix_pbrd.Drivers.Rules.{
  RuleKey, JsonRule, RuleParsers, pos, at_json_priority, ensure_ip_rule, delete_owned_ip_rule,
  owned_error, only_expected_fields, inspect_ip_rule, scan_ip_rule_json, scan_rules,
  ensure_ip_rule_count, delete_times,
}
use netflix_pbrd.Text.Words.{words}
use netflix_pbrd.Config.{ApplyConfig}
use netflix_pbrd.Networks.{run_canonical}
use netflix_pbrd.Networks.Merging.{IsNetworkSet}
use netflix_pbrd.Drivers.Commands.{is_success}
use netflix_pbrd.Drivers.Edge.{with_edge_defaults, apply_edge, edge_restore}
use netflix_pbrd.Drivers.Exit.{with_chain, nat_chain_of, exit_restore, apply_exit, apply_nft_exit}
use netflix_pbrd.Drivers.OpenWrt.{reconcile_openwrt}
use netflix_pbrd.Drivers.Journal.{journaled}
use netflix_pbrd.Drivers.Ordering.{IsOrderly, is_exit_hook, is_restore}
use netflix_pbrd.Drivers.ExitOrder.{apply_exit-IsOrderly}
use netflix_pbrd.Drivers.EdgeOrder.{is_edge_hook, apply_edge-IsOrderly}
use netflix_pbrd.Drivers.Quiet.{
  nft_probe, nft_change, apply_nft_exit-journal, reconcile_openwrt_settled,
}
use netflix_pbrd.Text.Words.{split_lines}
use netflix_pbrd.Base.{map}
use netflix_pbrd.Config.Load.{
  Parsers, check_apply, first_error, interface_pattern, identifier_pattern, chain_pattern,
  hex_pattern, valid_input_interface, valid_ipv4_cidr, check_driver,
}
use netflix_pbrd.Drivers.RestoreLines.{edge_line, edge_restore-lines}
use netflix_pbrd.Drivers.RuleScan.{count_ours, some_foreign, is_ours, is_foreign}
use netflix_pbrd.Drivers.RuleTable.{RuleTable, elsewhere, Inserted, first}
use netflix_pbrd.Drivers.RuleOwner.{
  OwnsOne, RulesWork, ensure_ip_rule-OwnsOne, ensure_ip_rule_foreign, delete_owned_ip_rule-gone,
  ensure_ip_rule_succeeds,
}

abbrev Kernel : Type 0
Kernel = ℕ × Bool

abbrev toy_uint : Text → ℕ × Bool
toy_uint s =
    if text_eq s (codes "0x2")
    then (2, false)
    else if text_eq s (codes "0xf")
    then (15, false)
    else (0, true)

abbrev own_rule : JsonRule
own_rule =
    (codes "priority", codes "12020")
    ∷ (codes "src", codes "all")
    ∷ (codes "fwmark", codes "0x2")
    ∷ (codes "fwmask", codes "0xf")
    ∷ (codes "table", codes "202")
    ∷ []

abbrev other_rule : JsonRule
other_rule =
    (codes "priority", codes "12020")
    ∷ (codes "src", codes "10.0.0.0/8")
    ∷ (codes "table", codes "9")
    ∷ []

abbrev kernel_rules : ℕ → ℕ → List JsonRule
kernel_rules zero zero = []
kernel_rules zero (suc n) = other_rule ∷ []
kernel_rules (suc n) other = own_rule ∷ kernel_rules n other

abbrev bit : Bool → ℕ
bit true = 1
bit false = 0

-- The output is the two numbers.
abbrev toy_rules : Text → Result (List JsonRule)
toy_rules (n ∷ other ∷ []) = ok (kernel_rules n other)
toy_rules _ = err (text (codes "bad output"))

abbrev pub toy_parsers : RuleParsers
toy_parsers = record {
  parse_rules = toy_rules;
  parse_string = λ s. none;
  atoi_value = λ s. if text_eq s (codes "12020") then pos 12020 else pos 0;
  parse_uint = toy_uint;
}

abbrev change_rules : Bool → Kernel → Kernel × Result (Unit {0})
change_rules true (n, other) = ((suc n, other), ok tt)
change_rules false (suc n, other) = ((n, other), ok tt)
change_rules false (zero, other) = ((zero, other), err (text (codes "no such rule")))

abbrev is_add : List Text → Bool
is_add (rule ∷ (c ∷ action) ∷ rest) = c == b'a'
is_add _ = false

abbrev kernel_runner : Runner Kernel
kernel_runner = record {
  run = λ name args w. change_rules (is_add args) w;
  run_input = λ input name args w. (w, ok tt);
  output = λ name args w. (w, ok (w.0 ∷ bit w.1 ∷ []));
  look_path = λ name w. (w, err (text (codes "not found")));
  exists = λ path w. false;
}

abbrev test_key : RuleKey
test_key = record {
  priority = codes "12020";
  mark = codes "0x2";
  mask = codes "0xf";
  table = codes "202";
}

abbrev show_rules : Kernel → List JsonRule
show_rules w = kernel_rules w.0 (bit w.1)

kernel_added :
    (w w' : Kernel)
    → change_rules true w ≡ (w', ok tt)
    → (r : JsonRule) × (is_ours toy_parsers test_key r ≡ true)
      × Inserted r (show_rules w) (show_rules w')
unfolding is_ours only_expected_fields text_eq trim_space
kernel_added (n, other) w' e =
    let same : (suc n, other) ≡ w' = ap (λ p. p.0) e in
    rw (← same) (own_rule, refl, first (kernel_rules n (bit other)))

kernel_deleted :
    (w w' : Kernel)
    → change_rules false w ≡ (w', ok tt)
    → (r : JsonRule) × (at_json_priority toy_parsers test_key r ≡ true)
      × Inserted r (show_rules w') (show_rules w)
unfolding text_eq trim_space
kernel_deleted (zero, other) w' e = absurd (ground arith)
kernel_deleted (suc n, other) w' e =
    let same : (n, other) ≡ w' = ap (λ p. p.0) e in
    rw (← same) (own_rule, refl, first (kernel_rules n (bit other)))

kernel_shown :
    (w : Kernel)
    → (out : Text) × (kernel_runner.output (codes "ip") (words "-j rule show") w ≡ (w, ok out))
      × (toy_parsers.parse_rules out ≡ ok (show_rules w))
kernel_shown (n, other) = (n ∷ bit other ∷ [], refl, refl)

abbrev kernel : RuleTable toy_parsers kernel_runner test_key
kernel = record {
  rules = show_rules;
  shown = kernel_shown;
  added = kernel_added;
  deleted = kernel_deleted;
}

-- Two rules of the driver are one behind it.
two_rules : ensure_ip_rule toy_parsers kernel_runner test_key (2, false) ≡ ((1, false), ok tt)
unfolding ensure_ip_rule inspect_ip_rule scan_ip_rule_json scan_rules ensure_ip_rule_count
    delete_times only_expected_fields text_eq words trim_space
two_rules = refl

ensure_ip_rule-OwnsOne_example :
    OwnsOne toy_parsers kernel_runner test_key kernel (2, false) (1, false)
ensure_ip_rule-OwnsOne_example =
    ensure_ip_rule-OwnsOne toy_parsers kernel_runner test_key kernel (2, false) (1, false) two_rules

two_deleted :
    delete_owned_ip_rule toy_parsers kernel_runner test_key (2, false) ≡ ((0, false), ok tt)
unfolding delete_owned_ip_rule inspect_ip_rule scan_ip_rule_json scan_rules delete_times
    only_expected_fields text_eq words trim_space
two_deleted = refl

delete_owned_ip_rule-gone_example :
    (count_ours toy_parsers test_key (show_rules (0, false)) ≡ 0)
    × (some_foreign toy_parsers test_key (show_rules (0, false)) ≡ false)
    × (elsewhere toy_parsers test_key (show_rules (0, false))
        ≡ elsewhere toy_parsers test_key (show_rules (2, false)))
delete_owned_ip_rule-gone_example =
    delete_owned_ip_rule-gone toy_parsers kernel_runner test_key kernel (2, false) (0, false)
      two_deleted

other_there : some_foreign toy_parsers test_key (show_rules (1, true)) ≡ true
unfolding some_foreign is_foreign only_expected_fields text_eq trim_space
other_there = refl

ensure_ip_rule_foreign_example :
    (ensure_ip_rule toy_parsers kernel_runner test_key (1, true)
      ≡ ((1, true), err (owned_error (codes "12020"))))
    × (delete_owned_ip_rule toy_parsers kernel_runner test_key (1, true)
        ≡ ((1, true), err (owned_error (codes "12020"))))
ensure_ip_rule_foreign_example =
    ensure_ip_rule_foreign toy_parsers kernel_runner test_key kernel (1, true) other_there

kernel_deletes :
    (w : Kernel) (n : ℕ)
    → count_ours toy_parsers test_key (show_rules w) ≡ suc n
    → (w' : Kernel) × (change_rules false w ≡ (w', ok tt))
unfolding count_ours is_ours only_expected_fields text_eq trim_space
kernel_deletes (zero, false) n h = absurd (ground arith)
kernel_deletes (zero, true) n h = absurd (ground arith)
kernel_deletes (suc m, other) n h = ((m, other), refl)

kernel_works : RulesWork toy_parsers kernel_runner test_key kernel
kernel_works = record { adds = λ w. ((suc w.0, w.1), refl); deletes = kernel_deletes }

none_there : some_foreign toy_parsers test_key (show_rules (0, false)) ≡ false
unfolding some_foreign
none_there = refl

ensure_ip_rule_succeeds_example :
    (w' : Kernel) × (ensure_ip_rule toy_parsers kernel_runner test_key (0, false) ≡ (w', ok tt))
    × OwnsOne toy_parsers kernel_runner test_key kernel (0, false) w'
ensure_ip_rule_succeeds_example =
    ensure_ip_rule_succeeds toy_parsers kernel_runner test_key kernel (0, false) kernel_works
      none_there

-- A machine on which no command is found, and where the files of a driver are as they should be.
abbrev pub exit_config : ApplyConfig
exit_config = record {
  driver = codes "linux-exit";
  interface = codes "wg0";
  peer = codes "peer";
  base_allowed = [];
  source_net = codes "10.8.0.0/24";
  wan_interface = codes "eth0";
  next_hop = [];
  table = [];
  chain = [];
  mark = [];
  mask = [];
  rule_priority = [];
  input_interface = [];
  pbr_section = codes "netflix";
  firewall_section = codes "netflix";
}

abbrev two_networks : List Text
two_networks = codes "45.57.0.0/24" ∷ codes "8.8.8.8/32" ∷ []

apply_exit-IsOrderly_example :
    IsOrderly
      (is_exit_hook (with_chain (codes "STREAM_EXIT") exit_config))
      (is_restore (
        exit_restore
          (with_chain (codes "STREAM_EXIT") exit_config)
          (nat_chain_of (with_chain (codes "STREAM_EXIT") exit_config).chain)
          two_networks))
      (apply_exit (journaled kernel_runner) exit_config two_networks ([], (0, false)))
apply_exit-IsOrderly_example =
    apply_exit-IsOrderly kernel_runner exit_config two_networks (0, false)

apply_edge-IsOrderly_example :
    IsOrderly
      (is_edge_hook (with_edge_defaults exit_config))
      (is_restore (edge_restore (with_edge_defaults exit_config) two_networks))
      (apply_edge (journaled kernel_runner) toy_parsers exit_config two_networks ([], (0, false)))
apply_edge-IsOrderly_example =
    apply_edge-IsOrderly kernel_runner toy_parsers exit_config two_networks (0, false)

apply_nft_exit-journal_example :
    (present : Bool) × (done : Bool) × ((apply_nft_exit
        (journaled kernel_runner)
        exit_config
        two_networks
        ([], (0, false))).0.0
      ≡ nft_change (with_chain (codes "netflix_exit") exit_config) two_networks present done
        ∷ nft_probe (with_chain (codes "netflix_exit") exit_config) present
        ∷ [])
    × (is_success
          (apply_nft_exit (journaled kernel_runner) exit_config two_networks ([], (0, false))).1
        ≡ done)
apply_nft_exit-journal_example =
    apply_nft_exit-journal kernel_runner exit_config two_networks (0, false)

-- UCI holds the networks of the set.
abbrev one_network : List Text
one_network = codes "45.57.0.0/24" ∷ []

abbrev uci_runner : Runner (Unit {0})
uci_runner = record {
  run = λ name args w. (w, ok tt);
  run_input = λ input name args w. (w, ok tt);
  output = λ name args w. (w, ok (codes "45.57.0.0/24" ++ codes "\n"));
  look_path = λ name w. (w, err (text (codes "not found")));
  exists = λ path w. false;
}

one_set : IsNetworkSet one_network
unfolding run_canonical
one_set = record { sorted = (tt, tt); forms = (refl, tt) }

abbrev uci_answer : Unit {0} × Result Text
uci_answer = (tt, ok (codes "45.57.0.0/24" ++ codes "\n"))

uci_holds : uci_answer ≡ (tt, ok (join one_network (codes " ") ++ codes "\n"))
unfolding join
uci_holds = refl

reconcile_openwrt_settled_example :
    reconcile_openwrt uci_runner exit_config one_network tt ≡ (tt, ok tt)
reconcile_openwrt_settled_example =
    reconcile_openwrt_settled uci_runner exit_config one_network tt one_set uci_holds uci_holds refl
      refl

abbrev edge_config : ApplyConfig
edge_config = record exit_config {
  driver = codes "linux-edge";
  chain = codes "NETFLIX_PBR";
  mark = codes "0x20000000";
  mask = codes "0xff000000";
}

abbrev plain_parsers : Parsers
plain_parsers = record {
  parse_url = λ s. none;
  split_host_port = λ s. none;
  atoi = λ s. none;
  parse_duration = λ s. none;
}

edge_checked : check_apply plain_parsers edge_config ≡ ok tt
unfolding check_apply first_error interface_pattern identifier_pattern chain_pattern hex_pattern
    valid_input_interface valid_ipv4_cidr check_driver text_eq trim_suffix has_suffix parse_cidr
    parse_ip parse_addr to4 cut mask_size net_of
edge_checked = refl

edge_restore-lines_example :
    split_lines (edge_restore (with_edge_defaults edge_config) one_network)
    ≡ codes "*mangle"
      ∷ (codes "-F " ++ (with_edge_defaults edge_config).chain)
      ∷ (map (edge_line (with_edge_defaults edge_config)) one_network ++ (codes "COMMIT" ∷ [] ∷ []))
edge_restore-lines_example =
    edge_restore-lines plain_parsers edge_config one_network edge_checked one_set
