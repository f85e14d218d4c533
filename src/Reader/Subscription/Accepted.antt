-- ===== src/Reader/Subscription/Accepted.antt =====
-- The requests that `parse_subscribe_request` accepts (sillage-reader/src/subscription.rs).
use sillage.Prelude.{
  ℕ, ◌≡◌, refl, ◌↔◌, Bool, true, false, ◌&&◌, String, List, [], ◌∷◌, ok, err, arith, Bool-cases,
  inl, inr, ◌⊎◌,
}
use sillage.Reader.Filter.{FilterAccounts}
use sillage.Reader.Subscription.{
  SubscribeRequest, SubscriptionFilters, Status, no_account_filters, no_txn_signature, is_nil,
  is_zero, is_none, check_accounts, parse_subscribe_request, is_empty,
}

-- Account filters that the index can answer in full.
abbrev pub answerable : List (String × FilterAccounts) → Bool
answerable [] = true
answerable ((name, f) ∷ fs) =
    is_nil f.filters && (is_none f.nonempty_txn_signature && answerable fs)

-- Nothing that is refused is asked for.
abbrev pub supported : SubscribeRequest → Bool
supported req =
    (is_zero req.blocks && is_zero req.entry)
    && ((is_zero req.transactions_status && is_zero req.accounts_data_slice)
        && answerable req.accounts)

abbrev pub filters_of : SubscribeRequest → SubscriptionFilters
filters_of req = record {
  transactions = req.transactions;
  accounts = req.accounts;
  blocks_meta = req.blocks_meta;
  from_slot = req.from_slot;
}

check_accounts-answerable :
    (fs : List (String × FilterAccounts))
    → (answerable fs ≡ true × check_accounts fs ≡ ok tt)
      ⊎ (answerable fs ≡ false × ((e : Status) × check_accounts fs ≡ err e))
unfolding check_accounts
check_accounts-answerable [] = inl (refl, refl)
check_accounts-answerable ((name, f) ∷ fs) = elim (Bool-cases (is_nil f.filters)) [
  | inr a ↦ inr (ground (arith, a), (no_account_filters, rw (check_accounts, a) refl))
  | inl a ↦ elim (Bool-cases (is_none f.nonempty_txn_signature)) [
    | inr b ↦ inr (ground (arith, a, b), (no_txn_signature, rw (check_accounts, a, b) refl))
    | inl b ↦ elim (check_accounts-answerable fs) [
      | inl (q, r) ↦ inl (ground (arith, a, b, q), rw (check_accounts, a, b) r)
      | inr (q, (e, r)) ↦ inr (ground (arith, a, b, q), (e, rw (check_accounts, a, b) r))
    ]
  ]
]

-- A request is accepted exactly when it has no blocks, entry or transaction status subscription
-- and no data slices, has a filter for transactions, accounts or the meta data of blocks, and its
-- account filters neither compare data nor ask for a transaction's signature; what is returned
-- then are its own filters and its first slot. Subscriptions to slots, which are not served, make
-- no difference.
pub parse_subscribe_request-ok_iff :
    (req : SubscribeRequest) (f : SubscriptionFilters)
    → ((parse_subscribe_request req ≡ ok f)
        ↔ ((supported req ≡ true) × (is_empty f ≡ false) × (f ≡ filters_of req)))
      × ((n : ℕ) → parse_subscribe_request (record req { slots = n }) ≡ parse_subscribe_request req)
unfolding parse_subscribe_request is_empty
parse_subscribe_request-ok_iff req f =
    (ground (arith, check_accounts-answerable req.accounts), λ n. refl)
