-- ===== src/Dns/Inspect.antt =====
-- `inspect` of internal/pbr/dns_proxy.go against its description by chains of aliases.
use netflix_pbrd.Base.{
  ◌≡◌, refl, ◌↔◌, Bool, true, false, not, ◌&&◌, ◌||◌, List, [], ◌∷◌, Text, arith, Bool-cases, inl,
  inr,
}
use netflix_pbrd.Text.{text_eq, contains}
use netflix_pbrd.Text.Laws.{text_eq→eq, text_eq_refl}
use netflix_pbrd.Config.{DnsProxyConfig}
use netflix_pbrd.Networks.{canonical_network}
use netflix_pbrd.Networks.Merging.{is_form, names, contains-merge}
use netflix_pbrd.Dns.{
  Rr, Msg, cname, a, other, fuel_for, canonical_dns_name, trust, inspect, trust_questions,
  addresses,
}
use netflix_pbrd.Dns.Closure.{has_alias, Linked, root, link, missing_targets-bound}
use netflix_pbrd.Dns.Trust.{
  records_of, Followed, passes-Keeps, passes-done, follow-Followed, asks, trust_questions-contains,
}

module _ (unicode_lower : Text → Text) where
  -- A name is trusted if it is an alias known from before, if it is asked for and is a Netflix name,
  -- or if a record makes it the target of a trusted name.
  pub data IsTrusted (c : DnsProxyConfig) (aliases : List Text) (message : Msg)
      : Text → Type 0 where
    known : (y : Text) → contains aliases y ≡ true → IsTrusted c aliases message y
    asked :
        (y : Text) → asks unicode_lower c message.questions y ≡ true → IsTrusted c aliases message y
    alias :
        (x y : Text)
        → IsTrusted c aliases message x
        → has_alias unicode_lower (records_of message) x y ≡ true
        → IsTrusted c aliases message y

  module _ (c : DnsProxyConfig) (aliases : List Text) (message : Msg) where
    abbrev start : List Text
    start = trust_questions unicode_lower c message.questions aliases

    start-contains :
        (y : Text)
        → contains start y ≡ (contains aliases y || asks unicode_lower c message.questions y)
    start-contains y = trust_questions-contains unicode_lower c message.questions aliases y

    trust-Followed :
        Followed unicode_lower
          (records_of message)
          start
          aliases
          (trust unicode_lower c aliases message)
    unfolding trust
    trust-Followed =
        passes-Keeps unicode_lower (fuel_for (records_of message)) (records_of message)
          (Followed unicode_lower (records_of message) start aliases)
          (follow-Followed unicode_lower (records_of message) start aliases)
          (λ t f. record { sound = f.sound; started = f.started; noted = f.noted }) _
          (record {
            sound = λ y k. root y k;
            started = λ y k. k;
            noted = λ y. ground (arith, start-contains y);
          })

    trust-done :
        ((trust unicode_lower c aliases message).changed ≡ false)
        × ((x y : Text)
            → has_alias unicode_lower (records_of message) x y ≡ true
            → contains (trust unicode_lower c aliases message).names x ≡ true
            → contains (trust unicode_lower c aliases message).names y ≡ true)
    unfolding trust
    trust-done =
        passes-done unicode_lower (fuel_for (records_of message)) (records_of message) _
          (omega (arith, missing_targets-bound unicode_lower (records_of message) start))

    Linked-IsTrusted :
        (y : Text)
        → Linked unicode_lower (records_of message) start y
        → IsTrusted c aliases message y
    Linked-IsTrusted _ (root y h) = elim (Bool-cases (contains aliases y)) [
      | inl old ↦ known y old
      | inr new ↦ asked y (ground (arith, start-contains y))
    ]
    Linked-IsTrusted _ (link x y l h) = alias x y (Linked-IsTrusted x l) h

    trusted-names :
        (y : Text)
        → IsTrusted c aliases message y
        → contains (trust unicode_lower c aliases message).names y ≡ true
    trusted-names _ (known y h) = trust-Followed.started y (ground (arith, start-contains y))
    trusted-names _ (asked y h) = trust-Followed.started y (ground (arith, start-contains y))
    trusted-names _ (alias x y l h) = trust-done.1 x y h (trusted-names x l)

    -- The loop of `inspect` ends: the last of the passes that the fuel allows changes nothing.
    pub trust-stops : (trust unicode_lower c aliases message).changed ≡ false
    trust-stops = trust-done.0

    -- The names that `inspect` trusts are those that a chain of aliases, of any length and in any
    -- order of the records, leads to from an alias known from before or from a Netflix name asked for.
    pub trust-names :
        (y : Text)
        → contains (trust unicode_lower c aliases message).names y ≡ true
          ↔ IsTrusted c aliases message y
    trust-names y = (λ h. Linked-IsTrusted y (trust-Followed.sound y h), trusted-names y)

    -- The aliases remembered after `inspect` are the old ones and the trusted names that are not
    -- themselves Netflix names asked for.
    pub inspect-aliases :
        (y : Text)
        → contains (inspect unicode_lower c aliases message).0 y ≡ (
            contains aliases y
            || (contains (trust unicode_lower c aliases message).names y
                && not (asks unicode_lower c message.questions y)))
    unfolding inspect
    inspect-aliases y = ground (arith, trust-Followed.noted y, start-contains y)

  -- Whether a record gives an owner an address.
  unfoldable pub has_address : List Rr → Text → Text → Bool
  has_address [] owner address = false
  has_address (a o v ∷ records) owner address =
      (text_eq (canonical_dns_name unicode_lower o) owner && text_eq v address)
      || has_address records owner address
  has_address (cname o g ∷ records) owner address = has_address records owner address
  has_address (other o ∷ records) owner address = has_address records owner address

  addresses→record :
      (trusted : List Text) (records : List Rr) (y : Text)
      → names (addresses unicode_lower trusted records) y ≡ true
      → (owner : Text) × (address : Text) × (has_address records owner address ≡ true)
        × (contains trusted owner ≡ true)
        × (is_form (canonical_network address) y ≡ true)
  unfolding addresses has_address
  addresses→record trusted [] y h = absurd (ground arith)
  addresses→record trusted (a o v ∷ records) y h =
      let owner = canonical_dns_name unicode_lower o in
      elim (Bool-cases (contains trusted owner && is_form (canonical_network v) y)) [
        | inl this ↦
            (owner, v, rw (text_eq_refl owner, text_eq_refl v) refl, ground arith, ground arith)
        | inr later ↦
            let (w, v', k, t, f) = addresses→record trusted records y (ground arith) in
            (w, v', ground arith, t, f)
      ]
  addresses→record trusted (cname o g ∷ records) y h = addresses→record trusted records y h
  addresses→record trusted (other o ∷ records) y h = addresses→record trusted records y h

  record→addresses :
      (trusted : List Text) (records : List Rr) (owner address y : Text)
      → has_address records owner address ≡ true
      → contains trusted owner ≡ true
      → is_form (canonical_network address) y ≡ true
      → names (addresses unicode_lower trusted records) y ≡ true
  unfolding addresses has_address
  record→addresses trusted [] owner address y h t f = absurd (ground arith)
  record→addresses trusted (a o v ∷ records) owner address y h t f =
      let known_owner = canonical_dns_name unicode_lower o in
      elim (Bool-cases (text_eq known_owner owner && text_eq v address)) [
        | inl this ↦ ground (
          arith,
          text_eq→eq known_owner owner (ground arith),
          text_eq→eq v address (ground arith),
        )
        | inr later ↦
            ground (arith, record→addresses trusted records owner address y (ground arith) t f)
      ]
  record→addresses trusted (cname o g ∷ records) owner address y h t f =
      record→addresses trusted records owner address y h t f
  record→addresses trusted (other o ∷ records) owner address y h t f =
      record→addresses trusted records owner address y h t f

  -- A network is learned from an answer exactly if it is the canonical form of an address that a
  -- record of the answer or of the additional section gives a trusted name.
  pub inspect-networks :
      (c : DnsProxyConfig) (aliases : List Text) (message : Msg) (y : Text)
      → contains (inspect unicode_lower c aliases message).1 y ≡ true ↔ (
          (owner : Text) × (address : Text) × (has_address (records_of message) owner address
            ≡ true)
          × IsTrusted c aliases message owner
          × (is_form (canonical_network address) y ≡ true))
  unfolding inspect
  inspect-networks c aliases message y =
      let trusted = (trust unicode_lower c aliases message).names in
      let records = records_of message in
      let same = contains-merge (addresses unicode_lower trusted records ∷ []) y in
      (
        (λ h.
            let (owner, address, k, t, f) = addresses→record trusted records y (ground arith) in
            (owner, address, k, (trust-names c aliases message owner).0 t, f)),
        (λ p.
            let (owner, address, k, t, f) = p in
            let named =
              record→addresses trusted records owner address y k
                ((trust-names c aliases message owner).1 t) f in
            ground arith),
      )
