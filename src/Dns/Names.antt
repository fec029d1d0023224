-- ===== src/Dns/Names.antt =====
-- `isNetflixName` of internal/pbr/dns_proxy.go against its description by labels.
use netflix_pbrd.Base.{
  ◌≡◌, refl, ◌↔◌, ◌⊎◌, true, ◌||◌, List, [], ◌∷◌, ◌++◌, Text, codes, arith, Bool-cases, inl, inr,
}
use netflix_pbrd.Text.{text_eq, has_suffix, contains_text}
use netflix_pbrd.Text.Laws.{text_eq→eq, text_eq_refl, has_suffix-append, has_suffix→append}
use netflix_pbrd.Config.{DnsProxyConfig}
use netflix_pbrd.Dns.{
  canonical_dns_name, under_suffix, has_service_prefix, is_netflix_name, first_label,
}

-- A name is a domain, or lies under it: the domain begins at a label.
pub data IsUnder (domain : Text) : Text → Type 0 where
  same : IsUnder domain domain
  below : (before : Text) → IsUnder domain (before ++ b'.' ∷ domain)

module _ (unicode_lower : Text → Text) where
  -- Some trusted suffix is a domain of the name.
  pub data HasDomain : List Text → Text → Type 0 where
    here :
        (raw : Text) (suffixes : List Text) (name : Text)
        → IsUnder (canonical_dns_name unicode_lower raw) name
        → HasDomain (raw ∷ suffixes) name
    later :
        (raw : Text) (suffixes : List Text) (name : Text)
        → HasDomain suffixes name
        → HasDomain (raw ∷ suffixes) name

  -- The name of a load balancer of a Netflix service.
  pub record IsBalancer (c : DnsProxyConfig) (name : Text) : Type 0 where
    pub in_aws : (before : Text) × (name ≡ before ++ codes ".amazonaws.com")
    pub in_elb : contains_text name (codes ".elb.") ≡ true
    pub of_service : has_service_prefix unicode_lower c.service_prefixes (first_label name) ≡ true

  is_under :
      (domain name : Text)
      → (text_eq name domain || has_suffix name (b'.' ∷ domain)) ≡ true
      → IsUnder domain name
  is_under domain name h = elim (Bool-cases (text_eq name domain)) [
    | inl equal ↦ rw (text_eq→eq name domain equal) same
    | inr differ ↦
        let (before, e) = has_suffix→append name (b'.' ∷ domain) (ground arith) in
        rw e (below before)
  ]

  under_suffix→domain :
      (suffixes : List Text) (name : Text)
      → under_suffix unicode_lower suffixes name ≡ true
      → HasDomain suffixes name
  unfolding under_suffix
  under_suffix→domain [] name h = absurd (ground arith)
  under_suffix→domain (raw ∷ suffixes) name h =
      let domain = canonical_dns_name unicode_lower raw in
      elim (Bool-cases (text_eq name domain || has_suffix name (b'.' ∷ domain))) [
        | inl this ↦ here raw suffixes name (is_under domain name this)
        | inr other ↦ later raw suffixes name (under_suffix→domain suffixes name (ground arith))
      ]

  under-tests :
      (domain name : Text)
      → IsUnder domain name
      → (text_eq name domain || has_suffix name (b'.' ∷ domain)) ≡ true
  under-tests domain _ same = rw (text_eq_refl domain) refl
  under-tests domain _ (below before) = ground (arith, has_suffix-append before (b'.' ∷ domain))

  domain→under_suffix :
      (suffixes : List Text) (name : Text)
      → HasDomain suffixes name
      → under_suffix unicode_lower suffixes name ≡ true
  unfolding under_suffix
  domain→under_suffix _ _ (here raw suffixes name u) =
      ground (arith, under-tests (canonical_dns_name unicode_lower raw) name u)
  domain→under_suffix _ _ (later raw suffixes name d) =
      ground (arith, domain→under_suffix suffixes name d)

  -- A canonical name is a Netflix name exactly if a trusted suffix is a domain that it is or lies
  -- under, at a boundary of labels, or if it is a load balancer under amazonaws.com, with ".elb." in
  -- it and the prefix of a service on its first label.
  pub is_netflix_name-IsUnder :
      (c : DnsProxyConfig) (name : Text)
      → is_netflix_name unicode_lower c name ≡ true
        ↔ (HasDomain c.trusted_suffixes name ⊎ IsBalancer c name)
  unfolding is_netflix_name
  is_netflix_name-IsUnder c name = (to, from)
    where
      to :
          is_netflix_name unicode_lower c name ≡ true
          → HasDomain c.trusted_suffixes name ⊎ IsBalancer c name
      to h = elim (Bool-cases (under_suffix unicode_lower c.trusted_suffixes name)) [
        | inl under ↦ inl (under_suffix→domain c.trusted_suffixes name under)
        | inr other ↦ inr (record {
          in_aws = has_suffix→append name (codes ".amazonaws.com") (ground arith);
          in_elb = ground arith;
          of_service = ground arith;
        })
      ]

      from :
          HasDomain c.trusted_suffixes name ⊎ IsBalancer c name
          → is_netflix_name unicode_lower c name ≡ true
      from (inl d) = ground (arith, domain→under_suffix c.trusted_suffixes name d)
      from (inr b) =
          let aws : has_suffix name (codes ".amazonaws.com") ≡ true =
            rw b.in_aws.1 (has_suffix-append b.in_aws.0 (codes ".amazonaws.com")) in
          ground (arith, b.in_elb, b.of_service)
