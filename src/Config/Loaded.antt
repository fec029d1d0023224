-- ===== src/Config/Loaded.antt =====
-- What a configuration that `LoadConfig` returns satisfies.
use netflix_pbrd.Base.{
  ℕ, ◌≤◌, ◌≡◌, refl, Bool, true, false, not, List, [], ◌∷◌, Option, none, some, Text, length,
  Result, ok, err, Error, text, All, arith, codes,
}
use netflix_pbrd.Text.{text_eq}
use netflix_pbrd.Networks.{validate_networks}
use netflix_pbrd.Config.{
  Role, controller, agent, is_agent, ApiConfig, ApplyConfig, Config, poll_interval, reapply_every,
}
use netflix_pbrd.Config.Load.{
  Url, Parsers, is_set, first_error, refuse, check_source, check_dns_proxy, check_apply,
  check_applies, checks, checked, load_config, load_as, with_max, parse_role, check_url, wrap,
  ignore,
}

pub first_error-All :
    (checks : List (Result (Unit {0})))
    → first_error checks ≡ ok tt
    → All (λ check. check ≡ ok tt) checks
unfolding first_error
first_error-All [] e = tt
first_error-All (ok u ∷ checks) e = (refl, first_error-All checks e)
first_error-All (err x ∷ checks) e = absurd (ground arith)

module _ (parsers : Parsers) where
  pub record IsLoaded (c : Config) : Type 0 where
    pub state_file_set : is_set c.state_file ≡ true
    pub token_long : 32 ≤ length c.api.token
    pub report_token_long : 32 ≤ length c.api.report_token
    pub tokens_differ : text_eq c.api.report_token c.api.token ≡ false
    pub limit_low : 1 ≤ c.max_networks
    pub limit_high : c.max_networks ≤ 65535
    pub seeds_valid :
        (seeds : List Text) × (validate_networks c.seed_networks false c.max_networks ≡ ok seeds)
    pub proxy_valid : check_dns_proxy parsers c.dns_proxy ≡ ok tt
    pub drivers_valid : All (λ d. check_apply parsers d ≡ ok tt) c.apply
    pub interval_valid : (d : ℕ) × (poll_interval parsers.parse_duration c ≡ ok d)
    pub reapply_valid : (d : ℕ) × (reapply_every parsers.parse_duration c ≡ ok d)
    pub tls_or_insecure :
        is_set c.api.listen ≡ true
        → c.api.allow_insecure_http ≡ false
        → (is_set c.api.tls_cert ≡ true) × (is_set c.api.tls_key ≡ true)
    pub agent_https :
        is_agent c.role ≡ true
        → c.api.allow_insecure_http ≡ false
        → (url : Url) × (parsers.parse_url c.api.source_url ≡ some url)
          × (text_eq url.scheme (codes "https") ≡ true)

  check_applies-All :
      (cs : List ApplyConfig)
      → check_applies parsers cs ≡ ok tt
      → All (λ d. check_apply parsers d ≡ ok tt) cs
  unfolding check_applies
  check_applies-All [] e = tt
  check_applies-All (c ∷ cs) e =
      let both = first_error-All (check_apply parsers c ∷ check_applies parsers cs ∷ []) e in
      (both.0, check_applies-All cs both.1.0)

  refuse-ok : (bad : Bool) (x : Error) → refuse bad x ≡ ok tt → bad ≡ false
  refuse-ok true x e = absurd (ground arith)
  refuse-ok false x e = refl

  wrap-ok :
      {A : Type 0} (r : Result A) (prefix : Text) → wrap prefix r ≡ ok tt → (a : A) × (r ≡ ok a)
  wrap-ok (ok a) prefix e = (a, refl)
  wrap-ok (err x) prefix e = absurd (ground arith)

  ignore-ok : {A : Type 0} (r : Result A) → ignore r ≡ ok tt → (a : A) × (r ≡ ok a)
  ignore-ok (ok a) e = (a, refl)
  ignore-ok (err x) e = absurd (ground arith)

  check_url-https :
      (found : Option Url)
      → check_url parsers false found ≡ ok tt
      → (url : Url) × (found ≡ some url) × (text_eq url.scheme (codes "https") ≡ true)
  check_url-https none e = absurd (ground arith)
  check_url-https (some url) e = (url, refl, ground arith)

  check_source-https :
      (role : Role) (api : ApiConfig)
      → check_source parsers role api ≡ ok tt
      → is_agent role ≡ true
      → api.allow_insecure_http ≡ false
      → (url : Url) × (parsers.parse_url api.source_url ≡ some url)
        × (text_eq url.scheme (codes "https") ≡ true)
  check_source-https controller api e a h = absurd (ground arith)
  check_source-https agent api e a h =
      let both =
        first_error-All
          (refuse (not (is_set api.source_url)) (text (codes "agent requires api.source_url"))
            ∷ check_url parsers api.allow_insecure_http (parsers.parse_url api.source_url)
            ∷ [])
          e in
      check_url-https (parsers.parse_url api.source_url) (rw h at both.1.0)

  checks-IsLoaded : (c : Config) → first_error (checks parsers c) ≡ ok tt → IsLoaded c
  checks-IsLoaded c e =
      let all = first_error-All (checks parsers c) e in
      let file = all.0 in
      let long = all.1.1.1 in
      let limit = long.1.1.1 in
      let network = limit.1.1.1 in
      let proxy = network.1 in
      record {
        state_file_set = ground (arith, refuse-ok _ _ file);
        token_long = ground (arith, refuse-ok _ _ long.0);
        report_token_long = ground (arith, refuse-ok _ _ long.1.0);
        tokens_differ = refuse-ok _ _ long.1.1.0;
        limit_low = ground (arith, refuse-ok _ _ limit.0);
        limit_high = ground (arith, refuse-ok _ _ limit.0);
        seeds_valid = wrap-ok _ _ limit.1.0;
        proxy_valid = proxy.0;
        drivers_valid = check_applies-All c.apply proxy.1.0;
        interval_valid = ignore-ok _ proxy.1.1.0;
        reapply_valid = ignore-ok _ proxy.1.1.1.0;
        tls_or_insecure = λ l i. let bad = refuse-ok _ _ network.0 in (ground arith, ground arith);
        agent_https = λ a i. check_source-https c.role c.api all.1.0 a i;
      }

  checked-ok :
      (given c : Config) (r : Result (Unit {0}))
      → checked parsers given r ≡ ok c
      → (given ≡ c) × (r ≡ ok tt)
  checked-ok given c (ok u) e = ground arith
  checked-ok given c (err x) e = absurd (ground arith)

  load_as-ok : (role : Option Role) (c c' : Config) → load_as parsers role c ≡ ok c' → IsLoaded c'
  load_as-ok none c c' e = absurd (ground arith)
  load_as-ok (some role) c c' e =
      let given = with_max parsers (record c { role = role }) in
      let (same, fine) = checked-ok given c' (first_error (checks parsers given)) e in
      rw (← same) (checks-IsLoaded given fine)

  -- A configuration that is returned has tokens of at least 32 bytes that differ, a limit from 1 to
  -- 65535, seeds that `ValidateNetworks` accepts, a valid DNS proxy, valid drivers and intervals; it
  -- serves the API with TLS and takes an agent's networks by HTTPS unless it allows insecure HTTP.
  pub load_config-ok :
      (role : Text) (c c' : Config) → load_config parsers role c ≡ ok c' → IsLoaded c'
  unfolding load_config
  load_config-ok role c c' e = load_as-ok (parse_role role) c c' e
