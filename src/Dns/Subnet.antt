-- ===== src/Dns/Subnet.antt =====
-- What the upstream server is told of the client.
use netflix_pbrd.Base.{◌≡◌, true, false, none, List, [], ◌∷◌, ◌++◌, Option, some, if◌then◌else◌}
use netflix_pbrd.Net.{V4}
use netflix_pbrd.Dns.Exchange.{
  EdnsOption, client_subnet, Additional, opt, other_record, Place, is_subnet, without_subnets,
}

-- The subnets among the options.
unfoldable pub subnets : List EdnsOption → List EdnsOption
subnets [] = []
subnets (option ∷ options) =
    let found = subnets options in if is_subnet option then option ∷ found else found

-- There is no OPT record.
abbrev pub HasNoOpt : List Additional → Type 0
HasNoOpt [] = Unit {0}
HasNoOpt (opt header options ∷ extra) = true ≡ false
HasNoOpt (other_record bytes ∷ extra) = HasNoOpt extra

-- What the DNS library documents of `IsEdns0`: it finds an OPT record of the additional section, if
-- there is one.
pub record FindsOpt (is_edns0 : List Additional → Option Place) : Type 0 where
  pub finds :
      (extra : List Additional) (p : Place)
      → is_edns0 extra ≡ some p
      → extra ≡ p.ahead ++ (opt p.header p.options ∷ p.behind)
  pub misses : (extra : List Additional) → is_edns0 extra ≡ none → HasNoOpt extra

-- The OPT record of a query that goes upstream: the one at its place among the records that were given, or
-- a new one behind them if none was there.
pub data Origin (given : List Additional) : Place → Type 0 where
  found : (p : Place) → given ≡ p.ahead ++ (opt p.header p.options ∷ p.behind) → Origin given p
  created :
      HasNoOpt given
      → Origin given (record {
        ahead = given;
        header = record { class = 1232; ttl = 0 };
        options = [];
        behind = [];
      })

-- Between these two additional sections, the options of one OPT record have changed: it carries one
-- client subnet, and its other options as they were.
pub record TellsClient (ip : V4) (given sent : List Additional) : Type 0 where
  pub place : Place
  pub origin : Origin given place
  pub options : List EdnsOption
  pub written : sent ≡ place.ahead ++ (opt place.header options ∷ place.behind)
  pub one_subnet : subnets options ≡ client_subnet 1 32 ip ∷ []
  pub others : without_subnets options ≡ without_subnets place.options
