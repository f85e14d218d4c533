-- ===== src/Tests/Index.antt =====
-- The index of two transactions: built, written, parsed and asked.
use mathlib.Core.Bool.{◌&&◌}
use sillage.Prelude.{
  map, filterb, ℕ, ◌≡◌, refl, ok, none, some, true, false, [], ◌∷◌, arith, String, lookup, insert,
  insert_sorted, ltb, get_elem?,
}
use sillage.Common.Stream.{tx, acct}
use sillage.Common.Idx.{DimValue, bytes, dim_account_key}
use sillage.Writer.Index.{for_stream, observe, serialize_index}
use sillage.Writer.Index.Observe.{Adds, bit, observe-Adds}
use sillage.Writer.Index.Mentions.{mentions}
use sillage.Writer.Index.Ordinals.{
  observe_all, registered, mentions?, observe_all-for_stream, observe_all-for_stream-IsWf,
}
use sillage.Reader.Index.{ChunkIndex, parse_chunk_index, message_count, bitmap_for}
use sillage.Reader.Index.RoundTrip.{stored, bitmap_for-serialize}
use sillage.Reader.Filter.{FilterTransactions, FilterAccounts, Base58, filter_tx, filter_acct}
use sillage.Reader.Filter.Passes.{tx_passes, acct_passes}
use sillage.Reader.Filter.Scan.{index_file, scanned, filter_tx-scan, filter_acct-scan}
use sillage.Reader.Catalog.{ChunkEntry}
use sillage.Reader.Subscription.{SubscriptionFilters}
use sillage.Reader.Replay.Plan.{plan_chunk}
use sillage.Reader.Replay.Plan.Scanned.{
  any_passes, passing_names, is_cons, plan_chunk-scan, plan_chunk-names,
}
use sillage.Common.Update.{extract_slot}
use sillage.Reader.Decoded.{decode_message, frame_at}
use sillage.Reader.Replay.{extract_recv_ns}
use sillage.Reader.Replay.Cursor.{Item, item_at}
use sillage.Tests.Packaged.{two_meta, one_message, small_packages}
use sillage.Tests.Driving.{two_frames, load_two}
use sillage.Tests.Bitmaps.{list_bitmaps}
use sillage.Tests.Codec.{
  transaction_of, codec_of, encode_one, pk, two_transactions, two_header, two_file, one_account,
  acct_header, acct_file,
}

two_file_written :
    index_file list_bitmaps (codec_of two_header) tx two_transactions 0 10 ≡ ok two_file
unfolding encode_one serialize_index observe_all observe for_stream lookup insert insert_sorted
two_file_written = refl

-- Failed transactions, or those of the key that "B" spells.
abbrev decode_two : Base58
decode_two s = some (pk 2)

abbrev not_votes : FilterTransactions
not_votes = record {
  vote = some false;
  failed = none;
  signature = none;
  account_include = "B" ∷ [];
  account_required = [];
  account_exclude = [];
}

filter_tx-scan_example :
    (idx : ChunkIndex) × (parse_chunk_index (codec_of two_header) (some two_file) ≡ ok idx)
    × ((n : ℕ)
        → list_bitmaps.contains (filter_tx list_bitmaps decode_two idx not_votes) n
          ≡ (ltb n 2 && tx_passes decode_two (scanned tx two_transactions n) not_votes))
filter_tx-scan_example =
    filter_tx-scan list_bitmaps (codec_of two_header) decode_two two_transactions 0 10 two_file
      not_votes two_file_written (omega arith) (omega arith)

-- The index that the reader parses from the file.
two_scan :
    (idx : ChunkIndex) × (parse_chunk_index (codec_of two_header) (some two_file) ≡ ok idx)
    × ((n : ℕ)
        → list_bitmaps.contains (filter_tx list_bitmaps decode_two idx not_votes) n
          ≡ (ltb n 2 && tx_passes decode_two (scanned tx two_transactions n) not_votes))
two_scan =
    filter_tx-scan list_bitmaps (codec_of two_header) decode_two two_transactions 0 10 two_file
      not_votes two_file_written (omega arith) (omega arith)

abbrev two_filters : SubscriptionFilters
two_filters = record {
  transactions = ("calm", not_votes) ∷ [];
  accounts = [];
  blocks_meta = [];
  from_slot = none;
}

abbrev two_chunk : ChunkEntry
two_chunk = record {
  stream = tx;
  start_slot = 0;
  end_slot_exclusive = 10;
  zst_len = 10;
  meta = two_meta;
}

plan_chunk-scan_example :
    list_bitmaps.contains
      (plan_chunk list_bitmaps decode_two tx two_filters two_chunk two_scan.0).selected
      1
    ≡ any_passes list_bitmaps
        (codec_of two_header)
        decode_two
        two_transactions
        0
        10
        two_file
        two_scan.0
        two_filters.transactions
        1
plan_chunk-scan_example =
    plan_chunk-scan list_bitmaps (codec_of two_header) decode_two two_transactions 0 10 two_file
      two_scan.0 two_file_written (omega arith) (omega arith) two_scan.1 two_filters two_chunk 1

-- What a replay makes of the second message.
abbrev named_item : Item
named_item = record {
  slot = 5;
  update = one_message;
  names =
      map (λ (p : String × list_bitmaps.Bitmap). p.0)
        (filterb (λ (p : String × list_bitmaps.Bitmap). list_bitmaps.contains p.1 1)
          (plan_chunk list_bitmaps decode_two tx two_filters two_chunk two_scan.0).named_bitmaps);
  recv_ns = some 200;
}

plan_chunk-names_example :
    (named_item.names
      ≡ passing_names list_bitmaps
          (codec_of two_header)
          decode_two
          two_transactions
          0
          10
          two_file
          two_scan.0
          two_filters.transactions
          1)
    × (list_bitmaps.contains
          (plan_chunk list_bitmaps decode_two tx two_filters two_chunk two_scan.0).selected
          1
        ≡ is_cons (
            passing_names list_bitmaps
              (codec_of two_header)
              decode_two
              two_transactions
              0
              10
              two_file
              two_scan.0
              two_filters.transactions
              1))
unfolding item_at decode_message frame_at extract_slot extract_recv_ns plan_chunk
plan_chunk-names_example =
    plan_chunk-names list_bitmaps (codec_of two_header) decode_two two_transactions 0 10 two_file
      two_scan.0 two_file_written (omega arith) (omega arith) two_scan.1 small_packages load_two
      two_filters two_chunk two_frames 1 named_item refl

bitmap_for-serialize_example :
    (idx : ChunkIndex) × (parse_chunk_index (codec_of two_header) (some two_file) ≡ ok idx)
    × (message_count idx ≡ 2)
    × ((d : String) (v : DimValue)
        → bitmap_for list_bitmaps idx d v
          ≡ ok (
              stored list_bitmaps
                (observe_all list_bitmaps 0 two_transactions (for_stream list_bitmaps tx))
                d
                v))
bitmap_for-serialize_example =
    bitmap_for-serialize list_bitmaps (codec_of two_header)
      (observe_all list_bitmaps 0 two_transactions (for_stream list_bitmaps tx)) 0 10 2 two_file
      (observe_all-for_stream-IsWf list_bitmaps tx two_transactions) two_file_written (omega arith)

observe-Adds_example :
    Adds list_bitmaps 3 dim_account_key
      (bytes (pk 1))
      (mentions dim_account_key (bytes (pk 1)) tx (transaction_of true none (pk 1 ∷ [])))
      (for_stream list_bitmaps tx)
      (observe list_bitmaps 3 (transaction_of true none (pk 1 ∷ [])) (for_stream list_bitmaps tx))
unfolding for_stream
observe-Adds_example =
    observe-Adds list_bitmaps 3 dim_account_key (bytes (pk 1))
      (transaction_of true none (pk 1 ∷ [])) (for_stream list_bitmaps tx)

observe_all-for_stream_example :
    bit list_bitmaps
      (observe_all list_bitmaps 0 two_transactions (for_stream list_bitmaps tx))
      dim_account_key
      (bytes (pk 2))
      1
    ≡ (registered tx dim_account_key
        && mentions? dim_account_key (bytes (pk 2)) tx (get_elem? two_transactions 1))
observe_all-for_stream_example =
    observe_all-for_stream list_bitmaps tx two_transactions dim_account_key (bytes (pk 2)) 1
      (omega arith)

acct_file_written :
    index_file list_bitmaps (codec_of acct_header) acct one_account 0 10 ≡ ok acct_file
unfolding encode_one serialize_index observe_all observe for_stream lookup insert insert_sorted
acct_file_written = refl

-- Accounts of the owner that "B" spells.
abbrev any_account : FilterAccounts
any_account = record { account = []; owner = "B" ∷ []; filters = []; nonempty_txn_signature = none }

filter_acct-scan_example :
    (idx : ChunkIndex) × (parse_chunk_index (codec_of acct_header) (some acct_file) ≡ ok idx)
    × ((n : ℕ)
        → list_bitmaps.contains (filter_acct list_bitmaps decode_two idx any_account) n
          ≡ (ltb n 1 && acct_passes decode_two (scanned acct one_account n) any_account))
filter_acct-scan_example =
    filter_acct-scan list_bitmaps (codec_of acct_header) decode_two one_account 0 10 acct_file
      any_account acct_file_written (omega arith) (omega arith)
