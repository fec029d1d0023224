-- ===== src/Runtime/Server.antt =====
-- The handler of the controller's API, in internal/pbr/runtime.go. A request is its method, its
-- Authorization header and what its body decodes to, of which the handler reads at most 1 MiB.
use netflix_pbrd.Base.{
  ℕ, Bool, true, false, not, ◌||◌, List, [], ◌∷◌, Text, length, Result, ok, err, codes, ltb, ◌==◌,
  if◌then◌else◌,
}
use netflix_pbrd.Text.{text_eq, trim_prefix}
use netflix_pbrd.Networks.{merge, validate_networks}
use netflix_pbrd.Config.{Config, is_agent, max_networks}
use netflix_pbrd.System.{ApiResponse}
use netflix_pbrd.Runtime.Daemon.{Runtime, Host, State, accept_report}

pub record Call : Type 0 where
  pub method : Text
  pub authorization : Text
  pub payload : Result ApiResponse

-- What the handler writes: the networks with status 200, or a status without a payload.
pub data Written : Type 0 where
  payload_written : ApiResponse → Written
  status_written : ℕ → Written

abbrev pub is_get : Text → Bool
is_get method = text_eq method (codes "GET")

abbrev pub is_post : Text → Bool
is_post method = text_eq method (codes "POST")

abbrev pub expected_token : Config → Text → Text
expected_token c method = if is_post method then c.api.report_token else c.api.token

abbrev pub is_authorized : Config → Call → Bool
is_authorized c call =
    text_eq (trim_prefix call.authorization (codes "Bearer ")) (expected_token c call.method)

abbrev pub is_accepted : Result (List Text) → Bool
is_accepted (ok networks) = true
is_accepted (err e) = false

-- The checks of a report before it is accepted.
unfoldable pub is_valid_report : Runtime → ApiResponse → Bool
is_valid_report r payload =
    if not (payload.version == 1) || ltb (max_networks r.config) (length payload.networks)
    then false
    else if not (is_accepted (validate_networks payload.networks true (max_networks r.config)))
    then false
    else is_accepted (
        validate_networks (merge (r.desired ∷ payload.networks ∷ [])) false (max_networks r.config))

module _ {W : Type 0} (host : Host W) where
  abbrev pub acknowledged : State host × Result (Unit {0}) → State host × Written
  acknowledged (s, ok u) = (s, status_written 204)
  acknowledged (s, err e) = (s, status_written 500)

  abbrev pub post_payload : Result ApiResponse → State host → State host × Written
  post_payload (err e) s = (s, status_written 400)
  post_payload (ok payload) s =
      if is_valid_report s.0 payload
      then acknowledged (accept_report host payload.networks s)
      else (s, status_written 400)

  unfoldable pub handle_post : Call → State host → State host × Written
  handle_post call s =
      if is_agent s.0.config.role then (s, status_written 405) else post_payload call.payload s

  unfoldable pub handle : Call → State host → State host × Written
  handle call s =
      if not (is_authorized s.0.config call)
      then (s, status_written 401)
      else if is_get call.method
      then (
        s,
        payload_written (record { version = 1; updated = s.0.updated; networks = s.0.desired }),
      )
      else if is_post call.method
      then handle_post call s
      else (s, status_written 405)
