-- ===== src/Tests/Replay.antt =====
-- Requests, and the pacing of a replay.
use sillage.Prelude.{ℕ, ◌≤◌, ◌≡◌, ◌↔◌, refl, none, some, true, false, List, [], ◌∷◌, ok, arith}
use sillage.Reader.Subscription.{SubscribeRequest, parse_subscribe_request, is_empty}
use sillage.Reader.Subscription.Accepted.{supported, filters_of, parse_subscribe_request-ok_iff}
use sillage.Reader.Replay.{extract_recv_ns}
use sillage.Reader.Replay.ReceiptTimes.{extract_recv_ns-Between}
use sillage.Tests.Packaged.{one_message, two_meta}
use sillage.Reader.Pacing.{PacingConfig, from_config}
use sillage.Reader.Pacing.Targets.{
  warnings, Spaced, warnings-Spaced, targets, Rising, targets-Rising,
}

abbrev pub account_request : SubscribeRequest
account_request = record {
  slots = 1;
  blocks = 0;
  entry = 0;
  transactions_status = 0;
  accounts_data_slice = 0;
  transactions = [];
  accounts =
      (
        "mine",
        record { account = "A" ∷ []; owner = []; filters = []; nonempty_txn_signature = none },
      )
      ∷ [];
  blocks_meta = [];
  from_slot = some 7;
}

parse_subscribe_request-ok_iff_example :
    ((parse_subscribe_request account_request ≡ ok (filters_of account_request)) ↔ (
      (supported account_request ≡ true)
      × (is_empty (filters_of account_request) ≡ false)
      × (filters_of account_request ≡ filters_of account_request)))
    × ((n : ℕ)
        → parse_subscribe_request (record account_request { slots = n })
          ≡ parse_subscribe_request account_request)
parse_subscribe_request-ok_iff_example =
    parse_subscribe_request-ok_iff account_request (filters_of account_request)

abbrev paced : PacingConfig
paced = record { enabled = true; lag_warn_ms = 1; lag_drop_ms = 60_000 }

abbrev late_emits : List (ℕ × ℕ)
late_emits = (2_000_000, 0) ∷ (3_000_000, 0) ∷ (11_000_000_000, 1) ∷ []

warnings-Spaced_example : Spaced none (warnings late_emits (from_config paced))
warnings-Spaced_example = warnings-Spaced paced late_emits

targets-Rising_example :
    Rising 50 (targets (λ n. n) ((50, 1_000) ∷ (60, 1_200) ∷ (65, 1_300) ∷ []) (from_config paced))
targets-Rising_example =
    targets-Rising (λ n. n) (λ a b h. h) paced 50 1_000 ((60, 1_200) ∷ (65, 1_300) ∷ []) refl
      (omega arith, (omega arith, tt))

extract_recv_ns-Between_example :
    (s : ℕ) × (t : ℕ) × (extract_recv_ns one_message two_meta 0 ≡ some s)
    × (extract_recv_ns one_message two_meta 1 ≡ some t)
    × (100 ≤ s)
    × (s ≤ t)
    × (t ≤ 200)
extract_recv_ns-Between_example =
    extract_recv_ns-Between one_message one_message two_meta 100 200 0 1 refl refl refl refl
      (omega arith) (omega arith) (omega arith) (omega arith)
