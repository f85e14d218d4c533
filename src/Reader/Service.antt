-- ===== src/Reader/Service.antt =====
-- sillage-reader/src/grpc.rs: who may subscribe, and the answers that come from the catalog; and
-- the registry of sillage-reader/src/customer.rs.
--
-- A customer's name is the number that it is formatted from.
use mathlib.Core.Bool.{◌&&◌, not}
use sillage.Prelude.{
  ℕ, zero, suc, ◌+◌, ◌%◌, min, ◌≡◌, ◌↔◌, Option, none, some, Bool, true, false, String, List, [],
  ◌∷◌, ◌++◌, Eq, eqb, eqb_iff, leb, if◌then◌else◌, ◌==◌, string_eq, Result, ok, err, ◌>>=◌, bail_if,
  filterb, length, add64, u32_mod, arith,
}
use sillage.Reader.Catalog.{ChunkCatalog, StreamSummary, summary, max_opt}
use sillage.Reader.Replay.Plan.{min_opt}
use sillage.Reader.Subscription.{SubscribeRequest, SubscriptionFilters, parse_subscribe_request}
use sillage.Reader.Subscription
pub mod Auth
pub mod Admission
pub mod Floor

pub data ClientId : Type 0 where
  anonymous : ClientId
  token : ℕ → ClientId

abbrev pub client_beq : ClientId → ClientId → Bool
client_beq anonymous anonymous = true
client_beq (token i) (token j) = eqb i j
client_beq _ _ = false

pub client_beq_iff : (a b : ClientId) → (client_beq a b ≡ true) ↔ (a ≡ b)
client_beq_iff a b = ground arith

pub record CustomerHandle : Type 0 where
  pub customer_id : ℕ
  pub client : ClientId

pub record ConnectionLimits : Type 0 where
  pub max_connections_total : ℕ
  pub max_connections_per_token : ℕ

pub data Status : Type 0 where
  unauthenticated permission_denied deadline_exceeded internal closed_early not_found
        unimplemented :
      Status
  server_full token_full : Status
  refused : Subscription.Status → Status

-- `position(|t| *t == token)`.
unfoldable pub position : String → List String → Option ℕ
position t [] = none
position t (u ∷ us) =
    let later : Option ℕ = elim (position t us) [ none ↦ none | some i ↦ some (suc i) ] in
    if u == t then some 0 else later

-- The two headers that may hold the token, as far as they are text.
pub record Metadata : Type 0 where
  pub x_token : Option String
  pub x_token_bin : Option String

abbrev pub token_of : Metadata → Option String
token_of m = elim m.x_token [ some t ↦ some t | none ↦ m.x_token_bin ]

abbrev pub known_token : List String → Option String → Result Status ClientId
known_token tokens none = err unauthenticated
known_token tokens (some t) = elim (position t tokens) [
  | some i ↦ ok (token i)
  | none ↦ err permission_denied
]

unfoldable pub validate_auth : List String → Metadata → Result Status ClientId
validate_auth [] m = ok anonymous
validate_auth (t ∷ ts) m = known_token (t ∷ ts) (token_of m)

abbrev pub is_of : ClientId → CustomerHandle → Bool
is_of client c = client_beq c.client client

unfoldable pub admit :
    ConnectionLimits → CustomerHandle → List CustomerHandle → Result Status (List CustomerHandle)
admit limits handle customers =
    if leb limits.max_connections_total (length customers)
    then err server_full
    else if not (client_beq handle.client anonymous)
        && leb limits.max_connections_per_token (length (filterb (is_of handle.client) customers))
    then err token_full
    else ok (customers ++ (handle ∷ []))

-- `remove_from_registry`.
unfoldable pub remove_from_registry : ℕ → List CustomerHandle → List CustomerHandle
remove_from_registry id customers = filterb (λ c. not (eqb c.customer_id id)) customers

-- What comes first from the client.
pub data Inbound : Type 0 where
  late broken closed : Inbound
  first : SubscribeRequest → Inbound

pub record Service : Type 0 where
  pub connection_counter : ℕ
  pub customers : List CustomerHandle

unfoldable pub new_service : Service
new_service = record { connection_counter = 0; customers = [] }

abbrev pub first_request : Inbound → Result Status SubscriptionFilters
first_request late = err deadline_exceeded
first_request broken = err internal
first_request closed = err closed_early
first_request (first req) = elim (parse_subscribe_request req) [
  | ok parsed ↦ ok parsed
  | err e ↦ err (refused e)
]

-- `subscribe` up to the start of the customer's task.
unfoldable pub subscribe :
    List String
    → ConnectionLimits
    → Metadata
    → Inbound
    → Service
    → Result Status CustomerHandle × Service
subscribe tokens limits m inbound s = elim (validate_auth tokens m) [
  | err e ↦ (err e, s)
  | ok client ↦
      let handle : CustomerHandle = record {
        customer_id = s.connection_counter;
        client = client;
      } in
      let s1 = record s { connection_counter = add64 s.connection_counter 1 } in
      elim (first_request inbound) [
        | err e ↦ (err e, s1)
        | ok parsed ↦ elim (admit limits handle s.customers) [
          | err e ↦ (err e, s1)
          | ok customers ↦ (ok handle, record s1 { customers = customers })
        ]
      ]
]

unfoldable pub leave : ℕ → Service → Service
leave id s = record s { customers = remove_from_registry id s.customers }

unfoldable pub max_end_of : List StreamSummary → Option ℕ
max_end_of [] = none
max_end_of (r ∷ rs) = max_opt r.max_end (max_end_of rs)

unfoldable pub min_start_of : List StreamSummary → Option ℕ
min_start_of [] = none
min_start_of (r ∷ rs) = min_opt r.min_start (min_start_of rs)

unfoldable pub latest_slot : ChunkCatalog → Option ℕ
unfolding max_end_of
latest_slot catalog = max_end_of (summary catalog)

unfoldable pub first_available_slot : ChunkCatalog → Option ℕ
unfolding min_start_of
first_available_slot catalog = min_start_of (summary catalog)

-- `get_slot`, and `get_block_height`, which answers the same.
unfoldable pub get_slot : List String → Metadata → ChunkCatalog → Result Status ℕ
get_slot tokens m catalog = do
  client ← validate_auth tokens m
  elim (latest_slot catalog) [ some slot ↦ ok slot | none ↦ err not_found ]

unfoldable pub subscribe_replay_info :
    List String → Metadata → ChunkCatalog → Result Status (Option ℕ)
subscribe_replay_info tokens m catalog = do
  client ← validate_auth tokens m
  ok (first_available_slot catalog)
