-- ===== src/Dns/Exchange.antt =====
-- `exchange`, `exchangeDoH` and `addClientSubnet` of internal/pbr/dns_proxy.go: how a query goes to
-- the upstream server. Of a query the model keeps the additional section, with the options of its OPT
-- records; which of them `IsEdns0` finds is up to the DNS library, a parameter.
use netflix_pbrd.Base.{
  ℕ, Bool, true, false, List, [], ◌∷◌, ◌++◌, Option, none, some, and_then, Text, Io, ◌>>=◌, ◌>>◌,
  pure, fail, lift, Result, text, codes, ◌==◌, if◌then◌else◌, take, is_some,
}
use netflix_pbrd.Net.{V4, parse_ip, to4}
use netflix_pbrd.Config.{DnsProxyConfig}
use netflix_pbrd.Config.Load.{is_set}

-- An EDNS0 option: a client subnet, by its family, its source netmask and its address, or another
-- with its code.
pub data EdnsOption : Type 0 where
  client_subnet : ℕ → ℕ → V4 → EdnsOption
  other_option : ℕ → Text → EdnsOption

-- The class and the TTL of an OPT record, which carry the size of the buffer and the flags.
pub record OptHeader : Type 0 where
  pub class : ℕ
  pub ttl : ℕ

-- A record of the additional section: an OPT record, or another.
pub data Additional : Type 0 where
  opt : OptHeader → List EdnsOption → Additional
  other_record : Text → Additional

-- The OPT record that `IsEdns0` finds, between the records ahead of it and behind it.
pub record Place : Type 0 where
  pub ahead : List Additional
  pub header : OptHeader
  pub options : List EdnsOption
  pub behind : List Additional

pub record Query {ℓ} (M : Type ℓ) : Type ℓ where
  pub extra : List Additional
  pub rest : M

abbrev pub is_subnet : EdnsOption → Bool
is_subnet (client_subnet family mask address) = true
is_subnet (other_option code bytes) = false

unfoldable pub without_subnets : List EdnsOption → List EdnsOption
without_subnets [] = []
without_subnets (option ∷ options) =
    let kept = without_subnets options in if is_subnet option then kept else option ∷ kept

abbrev pub own_subnet : V4 → EdnsOption
own_subnet ip = client_subnet 1 32 ip

-- The IPv4 address of the client, whose address is a text as `net.SplitHostPort` takes it.
abbrev pub host_v4 : Option (Text × Text) → Option V4
host_v4 none = none
host_v4 (some (host, port)) = and_then (parse_ip host) to4

abbrev pub client_v4 : (Text → Option (Text × Text)) → Option Text → Option V4
client_v4 split_host_port none = none
client_v4 split_host_port (some remote) = host_v4 (split_host_port remote)

abbrev pub new_header : OptHeader
new_header = record { class = 1232; ttl = 0 }

-- The options of an OPT record with the subnet of the client in place of any other.
abbrev pub told : V4 → List EdnsOption → List EdnsOption
told ip options = without_subnets options ++ (own_subnet ip ∷ [])

-- The record that is found is changed where it is; without one, a new record comes last.
abbrev pub edited : V4 → List Additional → Option Place → List Additional
edited ip extra none = extra ++ (opt new_header (told ip []) ∷ [])
edited ip extra (some p) = p.ahead ++ (opt p.header (told ip p.options) ∷ p.behind)

abbrev pub with_subnet {ℓ} :
    {M : Type ℓ} → (List Additional → Option Place) → Option V4 → Query M → Query M
with_subnet is_edns0 none q = q
with_subnet is_edns0 (some ip) q = record q { extra = edited ip q.extra (is_edns0 q.extra) }

unfoldable pub add_client_subnet {ℓ} :
    {M : Type ℓ}
    → (List Additional → Option Place)
    → (Text → Option (Text × Text))
    → Option Text
    → Query M
    → Query M
unfolding without_subnets
add_client_subnet is_edns0 split_host_port remote q =
    with_subnet is_edns0 (client_v4 split_host_port remote) q

-- What a DNS server answers: whether the answer is truncated, and the message.
pub record Answer (M : Type 0) : Type 0 where
  pub truncated : Bool
  pub message : M

-- An answer of the DoH server: its status and its body.
pub record DohResponse : Type 0 where
  pub status : ℕ
  pub status_line : Text
  pub body : Result Text

-- The clients: an exchange with a server by a network, the request of DoH with its headers, and the wire
-- form of messages.
pub record Transport (W M R : Type 0) : Type 0 where
  pub exchange_by : Text → Text → Query M → Io W (Answer R)
  pub pack : Query M → Result Text
  pub post : Text → List (Text × Text) → Text → Io W DohResponse
  pub unpack : Text → Result R
  pub split_host_port : Text → Option (Text × Text)
  pub is_edns0 : List Additional → Option Place

abbrev pub doh_limit : ℕ
doh_limit = 65536

module _ {W M R : Type 0} (t : Transport W M R) where
  abbrev pub real_ip : Option (Text × Text) → List (Text × Text)
  real_ip none = []
  real_ip (some (host, port)) =
      if is_some (parse_ip host) then (codes "X-Real-IP", host) ∷ [] else []

  abbrev pub real_ip_of : Option Text → List (Text × Text)
  real_ip_of none = []
  real_ip_of (some remote) = real_ip (t.split_host_port remote)

  abbrev pub message_type : Text
  message_type = codes "application/dns-message"

  unfoldable pub exchange_doh : DnsProxyConfig → Query M → Option Text → Io W R
  exchange_doh c q remote = do
    payload ← lift (t.pack q)
    response ←
        t.post c.doh_url
          ((codes "Content-Type", message_type)
            ∷ (codes "Accept", message_type)
            ∷ real_ip_of remote)
          payload
    if response.status == 200
        then pure tt
        else fail (text (codes "DoH upstream returned " ++ response.status_line))
    body ← lift response.body
    lift (t.unpack (take doh_limit body))

  -- A truncated answer is asked for again by TCP.
  abbrev pub asked_again : DnsProxyConfig → Query M → Answer R → Io W R
  asked_again c q answer =
      if answer.truncated
      then (do again ← t.exchange_by (codes "tcp") c.upstream q; pure again.message)
      else pure answer.message

  abbrev pub exchange_dns : DnsProxyConfig → Query M → Io W R
  exchange_dns c q = do answer ← t.exchange_by (codes "udp") c.upstream q; asked_again c q answer

  unfoldable pub exchange : DnsProxyConfig → Query M → Option Text → Io W R
  exchange c q remote =
      if is_set c.doh_url
      then exchange_doh c q remote
      else exchange_dns c (add_client_subnet t.is_edns0 t.split_host_port remote q)
