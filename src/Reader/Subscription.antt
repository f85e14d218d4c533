-- ===== src/Reader/Subscription.antt =====
-- sillage-reader/src/subscription.rs: which subscriptions the reader serves. A filter map is the
-- list of its entries, in the order in which it is iterated.
use sillage.Prelude.{
  ℕ, zero, suc, Option, none, some, Bool, true, false, not, ◌&&◌, ◌||◌, String, List, [], ◌∷◌,
  if◌then◌else◌, Result, ok, err, ◌>>=◌, ◌>>◌, bail_if, anyb,
}
use sillage.Common.Stream.{Stream, tx, acct, block}
use sillage.Reader.Filter.{FilterTransactions, FilterAccounts, FilterBlocksMeta}
pub mod Accepted

-- A request. The filters that are only tested for emptiness are given by their number.
pub record SubscribeRequest : Type 0 where
  pub slots : ℕ
  pub blocks : ℕ
  pub entry : ℕ
  pub transactions_status : ℕ
  pub accounts_data_slice : ℕ
  pub transactions : List (String × FilterTransactions)
  pub accounts : List (String × FilterAccounts)
  pub blocks_meta : List (String × FilterBlocksMeta)
  pub from_slot : Option ℕ

pub record SubscriptionFilters : Type 0 where
  pub transactions : List (String × FilterTransactions)
  pub accounts : List (String × FilterAccounts)
  pub blocks_meta : List (String × FilterBlocksMeta)
  pub from_slot : Option ℕ

pub data Status : Type 0 where
  no_blocks no_entry no_transactions_status no_accounts_data_slice nothing_asked : Status
  no_account_filters no_txn_signature : Status

abbrev pub is_nil {ℓ} : {A : Type ℓ} → List A → Bool
is_nil [] = true
is_nil (x ∷ xs) = false

abbrev pub is_zero : ℕ → Bool
is_zero zero = true
is_zero (suc n) = false

abbrev pub is_none {ℓ} : {A : Type ℓ} → Option A → Bool
is_none none = true
is_none (some a) = false

unfoldable pub check_accounts : List (String × FilterAccounts) → Result Status (Unit {0})
check_accounts [] = ok tt
check_accounts ((name, f) ∷ fs) = do
  bail_if (not (is_nil f.filters)) no_account_filters
  bail_if (not (is_none f.nonempty_txn_signature)) no_txn_signature
  check_accounts fs

unfoldable pub parse_subscribe_request : SubscribeRequest → Result Status SubscriptionFilters
unfolding check_accounts
parse_subscribe_request req = do
  bail_if (not (is_zero req.blocks)) no_blocks
  bail_if (not (is_zero req.entry)) no_entry
  bail_if (not (is_zero req.transactions_status)) no_transactions_status
  bail_if (not (is_zero req.accounts_data_slice)) no_accounts_data_slice
  bail_if (is_nil req.transactions && (is_nil req.accounts && is_nil req.blocks_meta)) nothing_asked
  check_accounts req.accounts
  ok (record {
    transactions = req.transactions;
    accounts = req.accounts;
    blocks_meta = req.blocks_meta;
    from_slot = req.from_slot;
  })

unfoldable pub is_empty : SubscriptionFilters → Bool
is_empty f = is_nil f.transactions && (is_nil f.accounts && is_nil f.blocks_meta)

unfoldable pub has_stream : Stream → SubscriptionFilters → Bool
has_stream tx f = not (is_nil f.transactions)
has_stream acct f = not (is_nil f.accounts)
has_stream block f = not (is_nil f.blocks_meta)
