-- ===== src/Tests/Service.antt =====
-- Callers with and without tokens.
use sillage.Prelude.{none, some, String, List, [], ◌∷◌, arith}
use sillage.Reader.Service.{
  ConnectionLimits, Metadata, first, Service, new_service, subscribe, leave,
}
use sillage.Reader.Service.Auth.{Outcome, validate_auth-FirstAt}
use sillage.Reader.Service.Admission.{
  Reach, started, arrived, left, WithinLimits, Reach-WithinLimits, Named, Reach-Named,
}
use sillage.Tests.Replay.{account_request}

abbrev two_tokens : List String
two_tokens = "alpha" ∷ "beta" ∷ []

abbrev beta : Metadata
beta = record { x_token = none; x_token_bin = some "beta" }

validate_auth-FirstAt_example : Outcome two_tokens beta
validate_auth-FirstAt_example = validate_auth-FirstAt two_tokens beta

abbrev few : ConnectionLimits
few = record { max_connections_total = 2; max_connections_per_token = 1 }

-- Two come, and the first one goes.
abbrev visits : Service
visits =
    leave 0
      (subscribe two_tokens few beta (first account_request)
        (subscribe two_tokens few beta (first account_request) new_service).1).1

abbrev visits-Reach : Reach two_tokens few 2 visits
visits-Reach =
    left 0 (arrived beta (first account_request) (arrived beta (first account_request) started))

Reach-WithinLimits_example : WithinLimits few visits.customers
Reach-WithinLimits_example = Reach-WithinLimits two_tokens few visits-Reach

Reach-Named_example : Named 2 visits
Reach-Named_example = Reach-Named two_tokens few (omega arith) visits-Reach
