-- ===== src/Dns.antt =====
-- internal/pbr/dns_proxy.go: which names are trusted, what an answer teaches, and how a query is
-- served. Of a DNS message the model keeps what the code reads: the names asked for, and the records
-- of the answer and additional sections. The exchange with the upstream server is a parameter, and
-- so is Go's lower case of a text with a byte outside ASCII.
pub mod Closure
pub mod Names
pub mod Trust
pub mod Inspect
pub mod Serving
pub mod Exchange
pub mod Subnet
use netflix_pbrd.Base.{
  ℕ, zero, suc, ◌+◌, Bool, true, false, not, ◌&&◌, ◌||◌, List, [], ◌∷◌, ◌++◌, map, Option, Text,
  length, Io, ◌>>=◌, pure, catch, Result, ok, err, codes, leb, ltb, ◌==◌, if◌then◌else◌,
}
use netflix_pbrd.Text.{
  text_eq, has_prefix, has_suffix, trim_suffix, trim_space, contains_text, cut, contains, set_add,
}
use netflix_pbrd.Networks.{merge}
use netflix_pbrd.Config.{DnsProxyConfig}

-- A record, with its owner: an alias and its target, an address as `net.IP` prints it, or another.
pub data Rr : Type 0 where
  cname : Text → Text → Rr
  a : Text → Text → Rr
  other : Text → Rr

pub record Msg : Type 0 where
  pub questions : List Text
  pub answer : List Rr
  pub extra : List Rr

abbrev default_suffixes : List Text
default_suffixes =
    codes "netflix.com"
    ∷ codes "netflix.net"
    ∷ codes "nflxext.com"
    ∷ codes "nflximg.com"
    ∷ codes "nflximg.net"
    ∷ codes "nflxsearch.net"
    ∷ codes "nflxso.net"
    ∷ codes "nflxvideo.net"
    ∷ []

abbrev default_prefixes : List Text
default_prefixes = codes "apiproxy-device-prod-" ∷ codes "pushy-prod-" ∷ []

abbrev or_list : List Text → List Text → List Text
or_list [] fallback = fallback
or_list (x ∷ xs) fallback = x ∷ xs

-- The defaults that `newDNSLearner` puts in.
unfoldable pub with_dns_defaults : DnsProxyConfig → DnsProxyConfig
with_dns_defaults c = record c {
  trusted_suffixes = or_list c.trusted_suffixes default_suffixes;
  service_prefixes = or_list c.service_prefixes default_prefixes;
}

abbrev lower_byte : ℕ → ℕ
lower_byte c = if leb b'A' c && leb c b'Z' then c + 32 else c

abbrev is_ascii : Text → Bool
is_ascii [] = true
is_ascii (c ∷ s) = ltb c 128 && is_ascii s

abbrev pub first_label : Text → Text
first_label name = (cut name b'.').0

-- The trusted names and the aliases, and whether a pass changed them.
pub record Trusted : Type 0 where
  pub names : List Text
  pub aliases : List Text
  pub changed : Bool

-- Every pass but the last trusts the target of one more record.
abbrev pub fuel_for : List Rr → ℕ
fuel_for records = suc (length records)

module _ (unicode_lower : Text → Text) where
  unfoldable pub to_lower : Text → Text
  to_lower s = if is_ascii s then map lower_byte s else unicode_lower s

  unfoldable pub canonical_dns_name : Text → Text
  canonical_dns_name name = trim_suffix (to_lower (trim_space name)) (codes ".")

  unfoldable pub under_suffix : List Text → Text → Bool
  under_suffix [] name = false
  under_suffix (raw ∷ suffixes) name =
      let suffix = canonical_dns_name raw in
      text_eq name suffix || has_suffix name (b'.' ∷ suffix) || under_suffix suffixes name

  unfoldable pub has_service_prefix : List Text → Text → Bool
  has_service_prefix [] label = false
  has_service_prefix (prefix ∷ prefixes) label =
      has_prefix label (to_lower prefix) || has_service_prefix prefixes label

  unfoldable pub is_netflix_name : DnsProxyConfig → Text → Bool
  is_netflix_name c name =
      if under_suffix c.trusted_suffixes name
      then true
      else if not (has_suffix name (codes ".amazonaws.com"))
          || not (contains_text name (codes ".elb."))
      then false
      else has_service_prefix c.service_prefixes (first_label name)

  -- The names asked for that are Netflix names, on top of the known aliases.
  unfoldable pub trust_questions : DnsProxyConfig → List Text → List Text → List Text
  trust_questions c [] trusted = trusted
  trust_questions c (question ∷ questions) trusted =
      let name = canonical_dns_name question in
      trust_questions c questions (if is_netflix_name c name then set_add name trusted else trusted)

  unfoldable pub follow : Text → Text → Trusted → Trusted
  follow owner target t =
      if contains t.names owner && not (contains t.names target)
      then record { names = target ∷ t.names; aliases = set_add target t.aliases; changed = true }
      else t

  -- One pass over the records.
  unfoldable pub pass : List Rr → Trusted → Trusted
  pass [] t = t
  pass (cname owner target ∷ records) t =
      pass records (follow (canonical_dns_name owner) (canonical_dns_name target) t)
  pass (a owner address ∷ records) t = pass records t
  pass (other owner ∷ records) t = pass records t

  -- The passes, until one changes nothing.
  unfoldable pub passes : ℕ → List Rr → Trusted → Trusted
  passes zero records t = t
  passes (suc fuel) records t =
      let next = pass records (record t { changed = false }) in
      let more = passes fuel records next in if next.changed then more else next

  unfoldable pub addresses : List Text → List Rr → List Text
  addresses trusted [] = []
  addresses trusted (a owner address ∷ records) =
      let rest = addresses trusted records in
      if contains trusted (canonical_dns_name owner) then address ∷ rest else rest
  addresses trusted (cname owner target ∷ records) = addresses trusted records
  addresses trusted (other owner ∷ records) = addresses trusted records

  unfoldable pub trust : DnsProxyConfig → List Text → Msg → Trusted
  trust c aliases message =
      let records = message.answer ++ message.extra in
      passes (fuel_for records) records (record {
        names = trust_questions c message.questions aliases;
        aliases = aliases;
        changed = true;
      })

  -- The aliases after the call, and the networks to learn.
  unfoldable pub inspect : DnsProxyConfig → List Text → Msg → List Text × List Text
  inspect c aliases message =
      let t = trust c aliases message in
      (t.aliases, merge (addresses t.names (message.answer ++ message.extra) ∷ []))

pub data Reply : Type 0 where
  server_failure : Reply
  answered : Msg → Reply
