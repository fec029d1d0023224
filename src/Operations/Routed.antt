-- ===== src/Operations/Routed.antt =====
-- The routes of a smoke test: which command confirms that an address leads through the interface.
use netflix_pbrd.Base.{
  ◌≡◌, refl, ap, ◌∙◌, ◌⊎◌, inl, inr, true, List, [], ◌∷◌, ◌++◌, Text, >>=-eq-ok, Result, ok, err,
  Error, arith, Bool-cases, codes,
}
use netflix_pbrd.Text.{text_eq, contains_text, trim_space}
use netflix_pbrd.Text.Words.{words}
use netflix_pbrd.Config.{ApplyConfig}
use netflix_pbrd.Config.Load.{is_set}
use netflix_pbrd.Drivers.Edge.{with_edge_defaults}
use netflix_pbrd.Operations.Machine.{Machine}
use netflix_pbrd.Operations.Doctor.{DnsClient, policy_route}
use netflix_pbrd.Operations.Smoke.{SmokeResult, probe_edge, probe_wg, probe_one, probe_routes}

module _ {W : Type 0} (m : Machine W) (dns : DnsClient W) where
  -- A driver whose probe shows that the address leads through its interface, from the world where the
  -- probes start: the probe of its kind, for an edge the table instead where `ip route get` fails, or
  -- one of a later driver, from the world that the earlier probes leave.
  pub data ConfirmedBy (address : Text) : List ApplyConfig → W → Type 0 where
    by_wg :
        (c : ApplyConfig) (cs : List ApplyConfig) (w v : W) (out : Text)
        → text_eq c.driver (codes "wg-route") ≡ true
        → m.runner.output (codes "ip") (words "route get" ++ (address ∷ [])) w ≡ (v, ok out)
        → contains_text (trim_space out) (codes "dev " ++ c.interface) ≡ true
        → ConfirmedBy address (c ∷ cs) w
    by_edge :
        (c : ApplyConfig) (cs : List ApplyConfig) (w v : W) (out : Text)
        → text_eq c.driver (codes "linux-edge") ≡ true
        → m.runner.output
            (codes "ip")
            (words "route get" ++ (address ∷ codes "mark" ∷ (with_edge_defaults c).mark ∷ []))
            w
          ≡ (v, ok out)
        → contains_text (trim_space out) (codes "dev " ++ (with_edge_defaults c).interface) ≡ true
        → ConfirmedBy address (c ∷ cs) w
    by_table :
        (c : ApplyConfig) (cs : List ApplyConfig) (w v v' : W) (e : Error) (out : Text)
        → text_eq c.driver (codes "linux-edge") ≡ true
        → m.runner.output
            (codes "ip")
            (words "route get" ++ (address ∷ codes "mark" ∷ (with_edge_defaults c).mark ∷ []))
            w
          ≡ (v, err e)
        → m.runner.output
            (codes "ip")
            (words "route show table" ++ ((with_edge_defaults c).table ∷ []))
            v
          ≡ (v', ok out)
        → contains_text out (codes "dev " ++ (with_edge_defaults c).interface) ≡ true
        → ConfirmedBy address (c ∷ cs) w
    by_later :
        (c : ApplyConfig) (cs : List ApplyConfig) (s t : SmokeResult) (w v : W)
        → probe_one m dns address c (s, w) ≡ ((t, v), ok tt)
        → ConfirmedBy address cs v
        → ConfirmedBy address (c ∷ cs) w

  module _ (address : Text) (c : ApplyConfig) (cs : List ApplyConfig) (s : SmokeResult) (w : W)
      (t : SmokeResult) (v : W) (h : t.confirmed ≡ true) where
    probe_wg-ConfirmedBy :
        (r : W × Result Text)
        → text_eq c.driver (codes "wg-route") ≡ true
        → m.runner.output (codes "ip") (words "route get" ++ (address ∷ [])) w ≡ r
        → probe_wg m dns address c (s, w) ≡ ((t, v), ok tt)
        → ConfirmedBy address (c ∷ cs) w
    probe_wg-ConfirmedBy (u, ok out) kind l e =
        let e' = rw l at e in by_wg c cs w u out kind l (ap (λ p. p.0.0.confirmed) e' ∙ h)
    probe_wg-ConfirmedBy (u, err x) kind l e = let e' = rw l at e in absurd (ground (arith, e'))

    abbrev d : ApplyConfig
    d = with_edge_defaults c

    tabled :
        (r : W × Result Text) (u : W) (x : Error)
        → text_eq c.driver (codes "linux-edge") ≡ true
        → m.runner.output
            (codes "ip")
            (words "route get" ++ (address ∷ codes "mark" ∷ d.mark ∷ []))
            w
          ≡ (u, err x)
        → m.runner.output (codes "ip") (words "route show table" ++ (d.table ∷ [])) u ≡ r
        → is_set d.table ≡ true
        → probe_edge m dns address d (s, w) ≡ ((t, v), ok tt)
        → ConfirmedBy address (c ∷ cs) w
    unfolding policy_route
    tabled (u', ok out) u x kind l k b e =
        let e' = rw (l, b, k) at e in
        by_table c cs w u u' x out kind l k (ap (λ p. p.0.0.confirmed) e' ∙ h)
    tabled (u', err y) u x kind l k b e = let e' = rw (l, b, k) at e in absurd (ground (arith, e'))

    probe_edge-ConfirmedBy :
        (r : W × Result Text)
        → text_eq c.driver (codes "linux-edge") ≡ true
        → m.runner.output
            (codes "ip")
            (words "route get" ++ (address ∷ codes "mark" ∷ d.mark ∷ []))
            w
          ≡ r
        → probe_edge m dns address d (s, w) ≡ ((t, v), ok tt)
        → ConfirmedBy address (c ∷ cs) w
    unfolding policy_route
    probe_edge-ConfirmedBy (u, ok out) kind l e =
        let e' = rw l at e in by_edge c cs w u out kind l (ap (λ p. p.0.0.confirmed) e' ∙ h)
    probe_edge-ConfirmedBy (u, err x) kind l e = elim (Bool-cases (is_set d.table)) [
      | inl b ↦
          tabled (m.runner.output (codes "ip") (words "route show table" ++ (d.table ∷ [])) u) u x
            kind l refl b e
      | inr n ↦ let e' = rw (l, n) at e in absurd (ground (arith, e'))
    ]

    probe_one-ConfirmedBy :
        probe_one m dns address c (s, w) ≡ ((t, v), ok tt)
        → (s.confirmed ≡ true) ⊎ ConfirmedBy address (c ∷ cs) w
    probe_one-ConfirmedBy e = elim (Bool-cases (text_eq c.driver (codes "linux-edge"))) [
      | inl edge ↦ inr (probe_edge-ConfirmedBy _ edge refl (rw edge at e))
      | inr other ↦ elim (Bool-cases (text_eq c.driver (codes "wg-route"))) [
        | inl wg ↦ inr (probe_wg-ConfirmedBy _ wg refl (rw (other, wg) at e))
        | inr none_of ↦ let e' = rw (other, none_of) at e in inl (ap (λ p. p.0.0.confirmed) e' ∙ h)
      ]
    ]

  pub probe_routes-ConfirmedBy :
      (address : Text) (cs : List ApplyConfig) (s : SmokeResult) (w : W) (t : SmokeResult) (v : W)
      → probe_routes m dns address cs (s, w) ≡ ((t, v), ok tt)
      → t.confirmed ≡ true
      → (s.confirmed ≡ true) ⊎ ConfirmedBy address cs w
  unfolding probe_routes
  probe_routes-ConfirmedBy address [] s w t v e h = inl (ap (λ p. p.0.0.confirmed) e ∙ h)
  probe_routes-ConfirmedBy address (c ∷ cs) s w t v e h =
      let (_, (s₁, w₁), first, rest) =
        >>=-eq-ok (probe_one m dns address c) (λ _. probe_routes m dns address cs) (s, w) e in
      elim (probe_routes-ConfirmedBy address cs s₁ w₁ t v rest h) [
        | inl already ↦ probe_one-ConfirmedBy address c cs s w s₁ w₁ already first
        | inr later ↦ inr (by_later c cs s s₁ w w₁ first later)
      ]
