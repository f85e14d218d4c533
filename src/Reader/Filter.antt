-- ===== src/Reader/Filter.antt =====
-- sillage-reader/src/filter.rs: a subscription's filters, resolved through the bitmaps of a chunk.
pub mod Passes
pub mod Scan
use sillage.Prelude.{
  ℕ, ◌%◌, String, Option, none, some, Bool, true, false, List, [], ◌∷◌, eqb, if◌then◌else◌, length,
  Result, ok, err, u32_mod,
}
use sillage.Common.Idx.{
  DimValue, bytes, dim_account_key, dim_signature, dim_vote_flag, dim_failed_flag,
  dim_account_pubkey, dim_owner_program,
}
use sillage.Common.Roaring.{Roaring}
use sillage.Reader.Index.{ChunkIndex, IndexError, message_count, bitmap_for}

-- The fields of the request's filters that the source reads. `filters` stands for the memcmp and
-- datasize filters.
pub record FilterTransactions : Type 0 where
  pub vote : Option Bool
  pub failed : Option Bool
  pub signature : Option String
  pub account_include : List String
  pub account_required : List String
  pub account_exclude : List String

pub record FilterAccounts : Type 0 where
  pub account : List String
  pub owner : List String
  pub filters : List ℕ
  pub nonempty_txn_signature : Option Bool

pub record FilterBlocksMeta : Type 0 where

-- The decoder of the package `bs58`.
abbrev pub Base58 : Type 0
Base58 = String → Option (List ℕ)

-- `.ok().filter(|v| v.len() == n)`.
abbrev of_length : ℕ → Option (List ℕ) → Option (List ℕ)
of_length n none = none
of_length n (some v) = if eqb (length v) n then some v else none

unfoldable pub decode_pubkey : Base58 → String → Option (List ℕ)
decode_pubkey decode s = of_length 32 (decode s)

unfoldable pub decode_signature : Base58 → String → Option (List ℕ)
decode_signature decode s = of_length 64 (decode s)

module _ (R : Roaring) (decode : Base58) where
  open R use {Bitmap, empty, union, inter, diff, below}

  -- `message_count as u32` keeps the low 32 bits.
  match_all : ℕ → Bitmap
  match_all count = below (count % u32_mod)

  -- `unwrap_or_default().unwrap_or_default()`: an error and a missing value are the empty set.
  pub or_empty : Result IndexError (Option Bitmap) → Bitmap
  or_empty (ok (some b)) = b
  or_empty (ok none) = empty
  or_empty (err e) = empty

  abbrev bitmap_of : ChunkIndex → String → DimValue → Bitmap
  bitmap_of idx dim value = or_empty (bitmap_for R idx dim value)

  -- The step for `vote` or `failed`: only `true` is indexed, `false` is the complement.
  flag_step : ChunkIndex → String → Option Bool → Bitmap → Bitmap
  flag_step idx dim none result = result
  flag_step idx dim (some true) result = inter result (bitmap_of idx dim (DimValue.bool true))
  flag_step idx dim (some false) result =
      inter result (diff (match_all (message_count idx)) (bitmap_of idx dim (DimValue.bool true)))

  -- The loop over a list of keys of which one has to match: whether an entry is decodable, and
  -- the union over the decodable ones.
  union_step : ChunkIndex → String → List String → Bool → Bitmap → Bool × Bitmap
  union_step idx dim [] any_valid acc = (any_valid, acc)
  union_step idx dim (pk ∷ pks) any_valid acc = elim (decode_pubkey decode pk) [
    | none ↦ union_step idx dim pks any_valid acc
    | some key ↦ union_step idx dim pks true (union acc (bitmap_of idx dim (bytes key)))
  ]

  -- If no entry is decodable the constraint is dropped.
  include_step : ChunkIndex → String → List String → Bitmap → Bitmap
  include_step idx dim pks result =
      let (any_valid, acc) = union_step idx dim pks false empty in
      if any_valid then inter result acc else result

  -- The loop over `account_required`; `none` is the early return of the empty set.
  required_step : ChunkIndex → List String → Bitmap → Option Bitmap
  required_step idx [] result = some result
  required_step idx (pk ∷ pks) result = elim (decode_pubkey decode pk) [
    | none ↦ none
    | some key ↦ required_step idx pks (inter result (bitmap_of idx dim_account_key (bytes key)))
  ]

  exclude_step : ChunkIndex → List String → Bitmap → Bitmap
  exclude_step idx [] result = result
  exclude_step idx (pk ∷ pks) result = elim (decode_pubkey decode pk) [
    | none ↦ exclude_step idx pks result
    | some key ↦ exclude_step idx pks (diff result (bitmap_of idx dim_account_key (bytes key)))
  ]

  -- The step for `signature`; `none` is the early return of the empty set.
  signature_step : ChunkIndex → Option String → Bitmap → Option Bitmap
  signature_step idx none result = some result
  signature_step idx (some s) result = elim (decode_signature decode s) [
    | none ↦ none
    | some sig ↦ some (inter result (bitmap_of idx dim_signature (bytes sig)))
  ]

  accounts_step : ChunkIndex → FilterTransactions → Bitmap → Bitmap
  accounts_step idx f result =
      elim (required_step idx f.account_required
        (include_step idx dim_account_key f.account_include result)) [
          | none ↦ empty
          | some r ↦ exclude_step idx f.account_exclude r
        ]

  unfoldable pub filter_tx : ChunkIndex → FilterTransactions → Bitmap
  unfolding flag_step signature_step accounts_step include_step required_step exclude_step
      union_step match_all or_empty decode_pubkey decode_signature
  filter_tx idx f =
      let flagged =
        flag_step idx dim_failed_flag f.failed
          (flag_step idx dim_vote_flag f.vote (match_all (message_count idx))) in
      elim (signature_step idx f.signature flagged) [
        | none ↦ empty
        | some result ↦ accounts_step idx f result
      ]

  unfoldable pub filter_acct : ChunkIndex → FilterAccounts → Bitmap
  unfolding include_step union_step match_all or_empty decode_pubkey
  filter_acct idx f =
      include_step idx dim_owner_program f.owner
        (include_step idx dim_account_pubkey f.account (match_all (message_count idx)))

  unfoldable pub filter_block : ChunkIndex → FilterBlocksMeta → Bitmap
  unfolding match_all
  filter_block idx f = match_all (message_count idx)
