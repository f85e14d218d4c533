-- ===== src/Reader/Filter/Passes.antt =====
-- What a filter asks of one message, and that the bitmaps of sillage-reader/src/filter.rs select
-- the ordinals that pass.
use mathlib.Core.Bool.{◌&&◌, ◌||◌, not}
use sillage.Prelude.{
  ℕ, ◌%◌, ◌≡◌, String, Option, none, some, Bool, true, false, List, [], ◌∷◌, ltb, u32_mod, arith,
  inl, inr, Option-cases, anyb,
}
use sillage.Common.Idx.{
  DimValue, bytes, dim_account_key, dim_signature, dim_vote_flag, dim_failed_flag,
  dim_account_pubkey, dim_owner_program,
}
use sillage.Common.Roaring.{Roaring}
use sillage.Reader.Index.{ChunkIndex, message_count, bitmap_for}
use sillage.Reader.Filter.{
  FilterTransactions, FilterAccounts, Base58, decode_pubkey, decode_signature, match_all, or_empty,
  flag_step, union_step, include_step, required_step, exclude_step, signature_step, accounts_step,
  filter_tx, filter_acct,
}

-- A message as a filter sees it: which value of which dimension it is listed under.
abbrev pub View : Type 0
View = String → DimValue → Bool

module _ (decode : Base58) (has : View) where
  abbrev pub flag_passes : String → Option Bool → Bool
  flag_passes dim none = true
  flag_passes dim (some true) = has dim (DimValue.bool true)
  flag_passes dim (some false) = not (has dim (DimValue.bool true))

  abbrev pub is_key : String → Bool
  is_key pk = elim (decode_pubkey decode pk) [ none ↦ false | some key ↦ true ]

  abbrev pub has_key : String → String → Bool
  has_key dim pk = elim (decode_pubkey decode pk) [ none ↦ false | some key ↦ has dim (bytes key) ]

  -- One of the keys, unless none of them can be decoded.
  abbrev pub include_passes : String → List String → Bool
  include_passes dim pks = not (anyb is_key pks) || anyb (has_key dim) pks

  abbrev pub signature_passes : Option String → Bool
  signature_passes none = true
  signature_passes (some s) = elim (decode_signature decode s) [
    | none ↦ false
    | some sig ↦ has dim_signature (bytes sig)
  ]

  -- The filter of a transaction subscription, as a test of one message: every required key, one of
  -- the included keys, and none of the excluded ones.
  abbrev pub tx_passes : FilterTransactions → Bool
  tx_passes f =
      (flag_passes dim_vote_flag f.vote && flag_passes dim_failed_flag f.failed)
      && (signature_passes f.signature
          && (include_passes dim_account_key f.account_include
              && (not (anyb (λ pk. not (has_key dim_account_key pk)) f.account_required)
                  && not (anyb (has_key dim_account_key) f.account_exclude))))

  abbrev pub acct_passes : FilterAccounts → Bool
  acct_passes f =
      include_passes dim_account_pubkey f.account && include_passes dim_owner_program f.owner

module _ (R : Roaring) (decode : Base58) (idx : ChunkIndex) (n : ℕ) where
  open R use {
    Bitmap, contains, empty, union, inter, diff, below, contains-empty, contains-union,
    contains-inter, contains-diff, contains-below,
  }

  -- The view that the index gives of the message with the ordinal `n`.
  abbrev pub listed : View
  listed dim value = contains (or_empty R decode (bitmap_for R idx dim value)) n

  abbrev pub is_ordinal : Bool
  is_ordinal = ltb n (message_count idx % u32_mod)

  flag_step-contains :
      (dim : String) (o : Option Bool) (r : Bitmap)
      → contains r n ≡ (contains r n && is_ordinal)
      → contains (flag_step R decode idx dim o r) n
        ≡ (contains r n && flag_passes decode listed dim o)
  unfolding flag_step match_all
  flag_step-contains dim none r h = ground arith
  flag_step-contains dim (some true) r h =
      contains-inter r (or_empty R decode (bitmap_for R idx dim (DimValue.bool true))) n
  flag_step-contains dim (some false) r h = ground (
    arith,
    contains-inter r
        (diff (below (message_count idx % u32_mod))
          (or_empty R decode (bitmap_for R idx dim (DimValue.bool true))))
        n,
    contains-diff (below (message_count idx % u32_mod))
        (or_empty R decode (bitmap_for R idx dim (DimValue.bool true))) n,
    contains-below (message_count idx % u32_mod) n,
  )

  union_step-contains :
      (dim : String) (pks : List String) (valid : Bool) (acc : Bitmap)
      → let out = union_step R decode idx dim pks valid acc in
        (out.0 ≡ (valid || anyb (is_key decode listed) pks))
        × (contains out.1 n ≡ (contains acc n || anyb (has_key decode listed dim) pks))
  unfolding union_step
  union_step-contains dim [] valid acc = (ground arith, ground arith)
  union_step-contains dim (pk ∷ pks) valid acc = elim (Option-cases (decode_pubkey decode pk)) [
    | inl e ↦ rw (e, union_step) (ground (arith, e, union_step-contains dim pks valid acc))
    | inr (key, e) ↦
        rw (e, union_step)
          (ground (
            arith,
            e,
            union_step-contains dim pks true
                (union acc (or_empty R decode (bitmap_for R idx dim (bytes key)))),
            contains-union acc (or_empty R decode (bitmap_for R idx dim (bytes key))) n,
          ))
  ]

  include_step-contains :
      (dim : String) (pks : List String) (r : Bitmap)
      → contains (include_step R decode idx dim pks r) n
        ≡ (contains r n && include_passes decode listed dim pks)
  unfolding include_step
  include_step-contains dim pks r = ground (
    arith,
    union_step-contains dim pks false empty,
    contains-empty n,
    contains-inter r (union_step R decode idx dim pks false empty).1 n,
  )

  -- `none` selects nothing.
  abbrev contains_in : Option Bitmap → Bool
  contains_in none = false
  contains_in (some r) = contains r n

  required_step-contains :
      (pks : List String) (r : Bitmap)
      → contains_in (required_step R decode idx pks r)
        ≡ (contains r n && not (anyb (λ pk. not (has_key decode listed dim_account_key pk)) pks))
  unfolding required_step
  required_step-contains [] r = ground arith
  required_step-contains (pk ∷ pks) r = elim (Option-cases (decode_pubkey decode pk)) [
    | inl e ↦ rw (e, required_step) (ground (arith, e))
    | inr (key, e) ↦
        let b : Bitmap = or_empty R decode (bitmap_for R idx dim_account_key (bytes key)) in
        rw (e, required_step)
          (ground (arith, e, required_step-contains pks (inter r b), contains-inter r b n))
  ]

  exclude_step-contains :
      (pks : List String) (r : Bitmap)
      → contains (exclude_step R decode idx pks r) n
        ≡ (contains r n && not (anyb (has_key decode listed dim_account_key) pks))
  unfolding exclude_step
  exclude_step-contains [] r = ground arith
  exclude_step-contains (pk ∷ pks) r = elim (Option-cases (decode_pubkey decode pk)) [
    | inl e ↦ rw (e, exclude_step) (ground (arith, e, exclude_step-contains pks r))
    | inr (key, e) ↦
        let b : Bitmap = or_empty R decode (bitmap_for R idx dim_account_key (bytes key)) in
        rw (e, exclude_step)
          (ground (arith, e, exclude_step-contains pks (diff r b), contains-diff r b n))
  ]

  signature_step-contains :
      (o : Option String) (r : Bitmap)
      → contains_in (signature_step R decode idx o r)
        ≡ (contains r n && signature_passes decode listed o)
  unfolding signature_step
  signature_step-contains none r = ground arith
  signature_step-contains (some s) r = elim (Option-cases (decode_signature decode s)) [
    | inl e ↦ rw (e, signature_step) (ground (arith, e))
    | inr (sig, e) ↦
        let b : Bitmap = or_empty R decode (bitmap_for R idx dim_signature (bytes sig)) in
        rw (e, signature_step) (ground (arith, e, contains-inter r b n))
  ]

  accounts_step-contains :
      (f : FilterTransactions) (r : Bitmap)
      → contains (accounts_step R decode idx f r) n ≡ (
          contains r n
          && (include_passes decode listed dim_account_key f.account_include
              && (not
                    (anyb (λ pk. not (has_key decode listed dim_account_key pk)) f.account_required)
                  && not (anyb (has_key decode listed dim_account_key) f.account_exclude))))
  unfolding accounts_step
  accounts_step-contains f r =
      let i = include_step R decode idx dim_account_key f.account_include r in
      let inc = include_step-contains dim_account_key f.account_include r in
      let req = required_step-contains f.account_required i in
      elim (Option-cases (required_step R decode idx f.account_required i)) [
        | inl e ↦ rw (e, accounts_step) (ground (arith, e, inc, req, contains-empty n))
        | inr (r', e) ↦
            rw (e, accounts_step)
              (ground (arith, e, inc, req, exclude_step-contains f.account_exclude r'))
      ]

  flagged-contains :
      (f : FilterTransactions)
      → contains
          (flag_step R decode idx dim_failed_flag f.failed
            (flag_step R decode idx dim_vote_flag f.vote (match_all R decode (message_count idx))))
          n
        ≡ (is_ordinal
            && (flag_passes decode listed dim_vote_flag f.vote
                && flag_passes decode listed dim_failed_flag f.failed))
  unfolding match_all
  flagged-contains f =
      let all = below (message_count idx % u32_mod) in
      let h = contains-below (message_count idx % u32_mod) n in
      let v = flag_step-contains dim_vote_flag f.vote all (ground (arith, h)) in
      ground (
        arith,
        h,
        v,
        flag_step-contains dim_failed_flag f.failed
            (flag_step R decode idx dim_vote_flag f.vote all) (ground (arith, h, v)),
      )

  -- A transaction filter selects the ordinals below the message count whose listing in the index
  -- passes the filter: flags, signature, included, required and excluded keys.
  pub filter_tx-contains :
      (f : FilterTransactions)
      → contains (filter_tx R decode idx f) n ≡ (is_ordinal && tx_passes decode listed f)
  unfolding filter_tx
  filter_tx-contains f =
      let r =
        flag_step R decode idx dim_failed_flag f.failed
          (flag_step R decode idx dim_vote_flag f.vote (match_all R decode (message_count idx))) in
      let fl = flagged-contains f in
      let si = signature_step-contains f.signature r in
      elim (Option-cases (signature_step R decode idx f.signature r)) [
        | inl e ↦ rw (e, filter_tx) (ground (arith, e, fl, si, contains-empty n))
        | inr (r', e) ↦ rw (e, filter_tx) (ground (arith, e, fl, si, accounts_step-contains f r'))
      ]

  -- An account filter selects the ordinals below the message count with one of the accounts and
  -- one of the owners, each list without a decodable key asking nothing.
  pub filter_acct-contains :
      (f : FilterAccounts)
      → contains (filter_acct R decode idx f) n ≡ (is_ordinal && acct_passes decode listed f)
  unfolding filter_acct match_all
  filter_acct-contains f =
      let all = below (message_count idx % u32_mod) in
      ground (
        arith,
        contains-below (message_count idx % u32_mod) n,
        include_step-contains dim_account_pubkey f.account all,
        include_step-contains dim_owner_program f.owner
            (include_step R decode idx dim_account_pubkey f.account all),
      )
