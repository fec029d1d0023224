-- ===== src/Operations/Generated.antt =====
-- The generated configurations, and what the generation leaves behind.
use netflix_pbrd.Base.{
  ℕ, ◌+◌, ◌≡◌, refl, ap, inl, inr, true, false, not, ◌||◌, List, [], ◌∷◌, Text, some, ◌>>=◌, ◌>>◌,
  >>=-eq-ok, Result, ok, Result-cases, is_ok, is_err, codes, ltb, length, arith, Bool-cases,
}
use netflix_pbrd.Text.{text_eq, cut, trim_suffix}
use netflix_pbrd.Net.{parse_cidr, parse_addr, parse_ip, mask_size, net_of, to4}
use netflix_pbrd.Networks.{validate_networks, validate_loop}
use netflix_pbrd.Config.{Config, poll_interval, reapply_every}
use netflix_pbrd.Config.Load.{
  Parsers, is_set, load_config, first_error, check_dns_proxy, check_applies, check_apply,
  check_driver, with_max, valid_host_port, interface_pattern, identifier_pattern, chain_pattern,
  hex_pattern, valid_input_interface, valid_ipv4_cidr,
}
use netflix_pbrd.Operations.Machine.{load_config_file}
use netflix_pbrd.Operations.Generate.{
  NestedBundleOptions, with_nested_defaults, exit_bundle, edge_bundle, Generator, hex, random_token,
  write_config, verify, write_bundle, generate_nested_bundle, edge_path, exit_path,
}

pub length-hex : (bytes : List ℕ) → length (hex bytes) ≡ length bytes + length bytes
unfolding hex
length-hex [] = refl
length-hex (byte ∷ bytes) = omega (arith, length-hex bytes)

abbrev pub defaults : Text → Text → NestedBundleOptions
defaults output_dir edge_peer = with_nested_defaults (record {
  output_dir = output_dir;
  edge_peer = edge_peer;
  source_net = [];
  exit_wan = [];
  tunnel_interface = [];
  input_interface = [];
  controller_listen = [];
  controller_url = [];
  dns_listen = [];
  dns_upstream = [];
})

-- What the parsers of the standard library make of the texts that are generated.
pub record ReadsDefaults (parsers : Parsers) : Type 0 where
  pub split_listen :
      parsers.split_host_port (codes "192.168.8.2:1053") ≡ some (codes "192.168.8.2", codes "1053")
  pub split_upstream :
      parsers.split_host_port (codes "10.8.0.1:53") ≡ some (codes "10.8.0.1", codes "53")
  pub port_listen : parsers.atoi (codes "1053") ≡ some 1053
  pub port_upstream : parsers.atoi (codes "53") ≡ some 53
  pub priority : parsers.atoi (codes "12020") ≡ some 12020
  pub source :
      parsers.parse_url (codes "http://172.31.255.1:18080/v1/networks")
      ≡ some (record { scheme = codes "http"; host = codes "172.31.255.1:18080" })
  pub every : parsers.parse_duration (codes "15s") ≡ some 15000000000
  pub again : parsers.parse_duration (codes "5m") ≡ some 300000000000

module _ (parsers : Parsers) (reads : ReadsDefaults parsers) (output_dir c_peer : Text)
    (read_token report_token : List ℕ) where
  long_set : (t : Text) → length t ≡ 64 → is_set t ≡ true
  long_set [] h = absurd (omega (arith, h))
  long_set (c ∷ t) h = refl

  long_enough : (t : Text) → length t ≡ 64 → ltb (length t) 32 ≡ false
  long_enough t h = ground arith

  exit_loads :
      (read report : Text)
      → is_set read ≡ true
      → ltb (length read) 32 ≡ false
      → ltb (length report) 32 ≡ false
      → text_eq report read ≡ false
      → load_config parsers
          (codes "controller")
          (exit_bundle (defaults output_dir c_peer) read report)
        ≡ ok (with_max parsers (exit_bundle (defaults output_dir c_peer) read report))
  unfolding load_config first_error check_dns_proxy check_applies check_apply check_driver
      poll_interval reapply_every exit_bundle with_nested_defaults text_eq interface_pattern
      identifier_pattern chain_pattern valid_ipv4_cidr validate_networks validate_loop parse_cidr
      cut parse_addr mask_size net_of to4
  exit_loads read report set long_read long_report different =
      rw (set, long_read, long_report, different, reads.every, reads.again) refl

  edge_loads :
      (read report : Text)
      → is_set c_peer ≡ true
      → is_set read ≡ true
      → ltb (length read) 32 ≡ false
      → ltb (length report) 32 ≡ false
      → text_eq report read ≡ false
      → load_config parsers (codes "agent") (edge_bundle (defaults output_dir c_peer) read report)
        ≡ ok (with_max parsers (edge_bundle (defaults output_dir c_peer) read report))
  unfolding load_config first_error check_dns_proxy check_applies check_apply check_driver
      poll_interval reapply_every edge_bundle with_nested_defaults text_eq interface_pattern
      identifier_pattern chain_pattern valid_ipv4_cidr hex_pattern valid_input_interface
      valid_host_port validate_networks validate_loop parse_cidr cut parse_addr parse_ip mask_size
      net_of to4 trim_suffix
  edge_loads read report peer set long_read long_report different =
      rw
        (
          reads.source, set, long_read, long_report, different, reads.split_listen,
          reads.port_listen, reads.split_upstream, reads.port_upstream, reads.priority, peer,
          reads.every, reads.again,
        )
        refl

  -- With the defaults, a peer, and two different tokens of 32 random bytes, `LoadConfig` accepts both
  -- generated configurations.
  pub bundle_loads :
      is_set c_peer ≡ true
      → length read_token ≡ 32
      → length report_token ≡ 32
      → text_eq (hex report_token) (hex read_token) ≡ false
      → (load_config parsers
            (codes "controller")
            (exit_bundle (defaults output_dir c_peer) (hex read_token) (hex report_token))
          ≡ ok (
              with_max parsers
                (exit_bundle (defaults output_dir c_peer) (hex read_token) (hex report_token))))
        × (load_config parsers
              (codes "agent")
              (edge_bundle (defaults output_dir c_peer) (hex read_token) (hex report_token))
            ≡ ok (
                with_max parsers
                  (edge_bundle (defaults output_dir c_peer) (hex read_token) (hex report_token))))
  bundle_loads peer long_read long_report different =
      let read : length (hex read_token) ≡ 64 = omega (arith, length-hex read_token) in
      let report : length (hex report_token) ≡ 64 = omega (arith, length-hex report_token) in
      (
        exit_loads (hex read_token) (hex report_token) (long_set _ read) (long_enough _ read)
            (long_enough _ report) different,
        edge_loads (hex read_token) (hex report_token) peer (long_set _ read) (long_enough _ read)
            (long_enough _ report) different,
      )

module _ {W : Type 0} (g : Generator W) where
  verify-eq-ok :
      (o : NestedBundleOptions) (path prefix : Text) (w w' : W)
      → verify g o path prefix w ≡ (w', ok tt)
      → (w ≡ w') × ((c : Config) × (load_config_file g.machine path w ≡ ok c))
  unfolding verify
  verify-eq-ok o path prefix w w' e = elim (Result-cases (load_config_file g.machine path w)) [
    | is_err x l ↦ absurd (let k = rw l at e in ground arith)
    | is_ok c l ↦ (ap (λ p. p.0) (rw l at e), (c, l))
  ]

  after_tokens : NestedBundleOptions → Text → Text → W → W × Result (Unit {0})
  after_tokens o read_token report_token = do
    g.make_dir o.output_dir
    write_config g (exit_path g o) (exit_bundle o read_token report_token)
    write_config g (edge_path g o) (edge_bundle o read_token report_token)
    verify g o (edge_path g o) (codes "generated edge config")
    verify g o (exit_path g o) (codes "generated exit config")

  both : NestedBundleOptions → W → W × Result (Unit {0})
  both o = do
    verify g o (edge_path g o) (codes "generated edge config")
    verify g o (exit_path g o) (codes "generated exit config")

  -- Both files load.
  abbrev pub Loads : NestedBundleOptions → W → Type 0
  Loads o w =
      ((c : Config) × (load_config_file g.machine (edge_path g o) w ≡ ok c))
      × ((c : Config) × (load_config_file g.machine (exit_path g o) w ≡ ok c))

  both-Loads : (o : NestedBundleOptions) (w w' : W) → both o w ≡ (w', ok tt) → Loads o w'
  unfolding both
  both-Loads o w w' e =
      let (_, v, first, second) =
        >>=-eq-ok (verify g o (edge_path g o) (codes "generated edge config"))
          (λ _. verify g o (exit_path g o) (codes "generated exit config")) w e in
      let (still, edge) =
        verify-eq-ok o (edge_path g o) (codes "generated edge config") w v first in
      let (same, exit) =
        verify-eq-ok o (exit_path g o) (codes "generated exit config") v w' second in
      (rw (← same, ← still) edge, rw (← same) exit)

  after_tokens-Loads :
      (o : NestedBundleOptions) (a b : Text) (w w' : W)
      → after_tokens o a b w ≡ (w', ok tt)
      → Loads o w'
  unfolding after_tokens both
  after_tokens-Loads o a b w w' e =
      let (_, v, _, wrote) =
        >>=-eq-ok (g.make_dir o.output_dir)
          (λ _.
            write_config g (exit_path g o) (exit_bundle o a b)
            >> (write_config g (edge_path g o) (edge_bundle o a b) >> both o))
          w e in
      let (_, u, _, more) =
        >>=-eq-ok (write_config g (exit_path g o) (exit_bundle o a b))
          (λ _. write_config g (edge_path g o) (edge_bundle o a b) >> both o) v wrote in
      let (_, t, _, checked) =
        >>=-eq-ok (write_config g (edge_path g o) (edge_bundle o a b)) (λ _. both o) u more in
      both-Loads o t w' checked

  -- When the generation of a bundle succeeds, a directory and a peer were given, and both files load as
  -- they are on the disk at the end.
  pub generate_nested_bundle-Loads :
      (o : NestedBundleOptions) (w w' : W)
      → generate_nested_bundle g o w ≡ (w', ok tt)
      → (is_set o.output_dir ≡ true) × (is_set o.edge_peer ≡ true) × Loads o w'
  unfolding generate_nested_bundle write_bundle after_tokens with_nested_defaults
  generate_nested_bundle-Loads o w w' e =
      elim (Bool-cases (not (is_set o.output_dir) || not (is_set o.edge_peer))) [
        | inl lacking ↦ absurd (let k = rw lacking at e in ground arith)
        | inr given ↦
            let (a, v, _, one) =
              >>=-eq-ok (random_token g)
                (λ a. random_token g >>= after_tokens (with_nested_defaults o) a) w
                (rw given at e) in
            let (b, u, _, two) =
              >>=-eq-ok (random_token g) (after_tokens (with_nested_defaults o) a) v one in
            (ground arith, ground arith, after_tokens-Loads (with_nested_defaults o) a b u w' two)
      ]
