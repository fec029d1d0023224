-- ===== src/Drivers/OpenWrt.antt =====
-- The driver of OpenWrt: lists in UCI that the packages pbr and firewall read.
use netflix_pbrd.Base.{
  ℕ, Bool, true, false, not, ◌&&◌, List, [], ◌∷◌, ◌++◌, Text, length, Io, ◌>>=◌, ◌>>◌, pure, when,
  catch, Result, ok, err, codes, if◌then◌else◌,
}
use netflix_pbrd.Text.{join}
use netflix_pbrd.Text.Words.{words, fields, text_of}
use netflix_pbrd.Networks.{equal, validate_networks}
use netflix_pbrd.Config.{ApplyConfig}
use netflix_pbrd.Runner.{Runner}
use netflix_pbrd.Drivers.Commands.{succeeds}

abbrev pub pbr_option : ApplyConfig → Text
pbr_option c = text_of (codes "pbr." ∷ c.pbr_section ∷ codes ".dest_addr" ∷ [])

abbrev pub firewall_option : ApplyConfig → Text
firewall_option c = text_of (codes "firewall." ∷ c.firewall_section ∷ codes ".dest_ip" ∷ [])

abbrev pub is_empty_list : List Text → Bool
is_empty_list [] = true
is_empty_list (x ∷ xs) = false

abbrev pub field_limit : List Text → ℕ
field_limit [] = 1
field_limit (x ∷ xs) = length (x ∷ xs)

-- The values that are stored, and whether they could be read. An error of `ValidateNetworks` comes
-- with no values.
abbrev pub read_values : Result (List Text) → List Text × Bool
read_values (ok values) = (values, true)
read_values (err e) = ([], false)

abbrev pub read_output : Bool → Result Text → List Text × Bool
read_output absent_ok (err e) = ([], absent_ok)
read_output absent_ok (ok out) =
    read_values (validate_networks (fields out) false (field_limit (fields out)))

-- Whether what is stored is what is wanted.
abbrev pub in_sync : List Text → List Text × Bool → List Text × Bool → Bool
in_sync nets pbr firewall = pbr.1 && firewall.1 && equal pbr.0 nets && equal firewall.0 nets

module _ {W : Type 0} (runner : Runner W) where
  open runner use {run, output}

  abbrev pub init : Text → Text → Io W (Unit {0})
  init service action = run (codes "/etc/init.d/" ++ service) (action ∷ [])

  unfoldable pub add_all : Text → List Text → Io W (Unit {0})
  add_all option [] = pure tt
  add_all option (network ∷ nets) = do
    run (codes "uci") (codes "add_list" ∷ (option ++ (codes "=" ++ network)) ∷ [])
    add_all option nets

  unfoldable pub apply_openwrt : ApplyConfig → List Text → Io W (Unit {0})
  unfolding join words
  apply_openwrt c nets = do
    run (codes "uci") (codes "set" ∷ (pbr_option c ++ (codes "=" ++ join nets (codes " "))) ∷ [])
    _ ← catch (run (codes "uci") (codes "-q" ∷ codes "delete" ∷ firewall_option c ∷ []))
    add_all (firewall_option c) nets
    run (codes "uci") (words "commit pbr")
    run (codes "uci") (words "commit firewall")
    init (codes "firewall") (codes "reload")
    init (codes "pbr") (codes "reload")

  unfoldable pub read_uci_list : Text → Bool → Io W (List Text × Bool)
  read_uci_list option absent_ok = do
    out ← catch (output (codes "uci") (codes "-q" ∷ codes "get" ∷ option ∷ []))
    pure (read_output absent_ok out)

  -- A service that does not run is reloaded.
  unfoldable pub ensure_running : Text → Io W (Unit {0})
  ensure_running service = do
    running ← succeeds runner (codes "/etc/init.d/" ++ service) (codes "status" ∷ [])
    when (not running) (init service (codes "reload"))

  unfoldable pub ensure_services : Io W (Unit {0})
  ensure_services = do ensure_running (codes "firewall"); ensure_running (codes "pbr")

  unfoldable pub reconcile_openwrt : ApplyConfig → List Text → Io W (Unit {0})
  reconcile_openwrt c nets = do
    pbr ← read_uci_list (pbr_option c) (is_empty_list nets)
    firewall ← read_uci_list (firewall_option c) (is_empty_list nets)
    if not (in_sync nets pbr firewall) then apply_openwrt c nets else ensure_services
