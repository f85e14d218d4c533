-- ===== src/Writer/Index/Observe.antt =====
-- What a message adds to the index (sillage-writer/src/index.rs), as one Boolean test.
use sillage.Prelude.{
  ℕ, ◌≡◌, refl, subst, ◌∙◌, String, Option, none, some, Bool, true, false, ◌&&◌, ◌||◌, List, [],
  ◌∷◌, eqb, length, get_elem?, lookup, string_eq, arith, ◌==◌, lookup-insert, lookup-insert_sorted,
  Ascending, Ascending-insert_sorted, anyb, Bool-cases, Option-cases, inl, inr,
}
use sillage.Common.Stream.{Stream, tx, acct, block}
use sillage.Common.Idx.{
  DimValue, bytes, value_beq_iff, dim_program_id, dim_account_key, dim_signature, dim_vote_flag,
  dim_failed_flag, dim_account_pubkey, dim_owner_program, dim_slot, dim_parent_slot, value_eq,
  value_ord,
}
use sillage.Common.Update.{
  SubscribeUpdate, UpdateOneof, TransactionInfo, AccountInfo, CompiledInstruction,
}
use sillage.Common.Roaring.{Roaring}
use sillage.Writer.Index.{
  IndexBuilder, resolved_keys, instructions_of, has_err, add_offset, insert_value, insert_if,
  insert_keys, insert_program, insert_programs, observe_info, observe_account_info, observe_oneof,
  observe_tx, observe_acct, observe_block, observe,
}
use sillage.Writer.Index.Mentions.{
  runs, asks, info_mentions, account_mentions, oneof_mentions, mentions,
}

module _ (R : Roaring) where
  open R use {Bitmap, contains, empty, insert_bit, contains-empty, contains-insert}

  abbrev pub bit_in : Option Bitmap → ℕ → Bool
  bit_in none n = false
  bit_in (some bm) n = contains bm n

  abbrev pub bit_under : Option (List (DimValue × Bitmap)) → DimValue → ℕ → Bool
  bit_under none v n = false
  bit_under (some m) v n = bit_in (lookup v m) n

  -- The index has the ordinal `n` under the value `v` of the dimension `d`.
  abbrev pub bit : IndexBuilder R → String → DimValue → ℕ → Bool
  bit b d v n = bit_under (lookup d b.dims) v n

  abbrev pub is_some : {A : Type 0} → Option A → Bool
  is_some none = false
  is_some (some a) = true

  abbrev pub has_dim : IndexBuilder R → String → Bool
  has_dim b d = is_some (lookup d b.dims)

  -- Every map is sorted by its values, and the dimensions in `order` are all there are.
  pub record IsWf (b : IndexBuilder R) : Type 0 where
    pub sorted :
        (e : String) (m : List (DimValue × Bitmap)) → lookup e b.dims ≡ some m → Ascending m
    pub closed : (e : String) → anyb (λ name. name == e) b.order ≡ false → lookup e b.dims ≡ none

  insert_value-IsWf :
      (dim : String) (value : DimValue) (o : ℕ) (b : IndexBuilder R)
      → IsWf b
      → IsWf (insert_value R dim value o b)
  unfolding insert_value add_offset
  insert_value-IsWf dim value o b w = elim (Option-cases (lookup dim b.dims)) [
    | inl e ↦ rw (e, insert_value) w
    | inr (m, e) ↦
        rw (e, insert_value)
          (record {
            sorted = λ d k h. elim (Bool-cases (dim == d)) [
              | inl hit ↦
                  let same : add_offset R value o m ≡ k =
                    ground (arith, lookup-insert dim d (add_offset R value o m) b.dims, h) in
                  subst Ascending same (Ascending-insert_sorted value _ m (w.sorted dim m e))
              | inr miss ↦
                  w.sorted d k
                    (ground (arith, lookup-insert dim d (add_offset R value o m) b.dims, h))
            ];
            closed = λ d h. ground (
              arith,
              lookup-insert dim d (add_offset R value o m) b.dims,
              string_eq.beq_iff dim d,
              w.closed d h,
            );
          })
  ]

  -- `b'` is `b` with the ordinal `o` under the pairs that pass `M`.
  pub record Adds (o : ℕ) (d : String) (v : DimValue) (M : Bool) (b b' : IndexBuilder R)
      : Type 0 where
    pub stream_same : b'.stream ≡ b.stream
    pub order_same : b'.order ≡ b.order
    pub dims_same : has_dim b' d ≡ has_dim b d
    pub wf : IsWf b → IsWf b'
    pub bits : (n : ℕ) → bit b' d v n ≡ ((eqb o n && (has_dim b d && M)) || bit b d v n)

  module _ (o : ℕ) (d : String) (v : DimValue) where
    add_offset-bit :
        (value : DimValue) (m : List (DimValue × Bitmap)) (n : ℕ)
        → bit_in (lookup v (add_offset R value o m)) n
          ≡ ((eqb o n && (value == v)) || bit_in (lookup v m) n)
    unfolding add_offset
    add_offset-bit value m n = ground (
      arith,
      value_beq_iff value v,
      lookup-insert_sorted value v
          (insert_bit o (elim (lookup value m) [ none ↦ empty | some bm ↦ bm ])) m,
      contains-insert o (elim (lookup value m) [ none ↦ empty | some bm ↦ bm ]) n,
      contains-empty n,
    )

    Adds-insert_value :
        (dim : String) (value : DimValue) (b : IndexBuilder R)
        → Adds o d v (asks d v dim value) b (insert_value R dim value o b)
    unfolding insert_value
    Adds-insert_value dim value b = record {
      stream_same = ground arith;
      order_same = ground arith;
      dims_same = elim (Option-cases (lookup dim b.dims)) [
        | inl e ↦ ground arith
        | inr (m, e) ↦
            ground
              (arith, string_eq.beq_iff dim d, lookup-insert dim d (add_offset R value o m) b.dims)
      ];
      wf = insert_value-IsWf dim value o b;
      bits = λ n. elim (Option-cases (lookup dim b.dims)) [
        | inl e ↦ ground (arith, string_eq.beq_iff dim d)
        | inr (m, e) ↦ ground (
          arith,
          string_eq.beq_iff dim d,
          lookup-insert dim d (add_offset R value o m) b.dims,
          add_offset-bit value m n,
        )
      ];
    }

    Adds-none : (b : IndexBuilder R) → Adds o d v false b b
    Adds-none b = record {
      stream_same = refl;
      order_same = refl;
      dims_same = refl;
      wf = λ w. w;
      bits = λ n. ground arith;
    }

    Adds-or :
        {M N : Bool} {a b c : IndexBuilder R}
        → Adds o d v M a b
        → Adds o d v N b c
        → Adds o d v (M || N) a c
    Adds-or {a} h k = record {
      stream_same = k.stream_same ∙ h.stream_same;
      order_same = k.order_same ∙ h.order_same;
      dims_same = k.dims_same ∙ h.dims_same;
      wf = λ w. k.wf (h.wf w);
      bits = λ n. ground (arith, h.bits n, k.bits n, h.dims_same);
    }

    Adds-insert_if :
        (c : Bool) (dim : String) (value : DimValue) (b : IndexBuilder R)
        → Adds o d v (c && asks d v dim value) b (insert_if R c dim value o b)
    unfolding insert_if
    Adds-insert_if true dim value b = Adds-insert_value dim value b
    Adds-insert_if false dim value b = Adds-none b

    Adds-insert_keys :
        (keys : List (List ℕ)) (b : IndexBuilder R)
        → Adds o d v
            (anyb (λ key. eqb (length key) 32 && asks d v dim_account_key (bytes key)) keys)
            b
            (insert_keys R o keys b)
    unfolding insert_keys
    Adds-insert_keys [] b = Adds-none b
    Adds-insert_keys (key ∷ keys) b =
        Adds-or (Adds-insert_if (eqb (length key) 32) dim_account_key (bytes key) b)
          (Adds-insert_keys keys _)

    Adds-insert_program :
        (resolved : List (List ℕ)) (ix : CompiledInstruction) (b : IndexBuilder R)
        → Adds o d v (runs d v resolved ix) b (insert_program R o resolved ix b)
    unfolding insert_program
    Adds-insert_program resolved ix b =
        elim (Option-cases (get_elem? resolved ix.program_id_index)) [
          | inl e ↦ rw (e, insert_program, runs) (Adds-none b)
          | inr (key, e) ↦
              rw (e, insert_program, runs)
                (Adds-insert_if (eqb (length key) 32) dim_program_id (bytes key) b)
        ]

    Adds-insert_programs :
        (resolved : List (List ℕ)) (ixs : List CompiledInstruction) (b : IndexBuilder R)
        → Adds o d v (anyb (runs d v resolved) ixs) b (insert_programs R o resolved ixs b)
    unfolding insert_programs
    Adds-insert_programs resolved [] b = Adds-none b
    Adds-insert_programs resolved (ix ∷ ixs) b =
        Adds-or (Adds-insert_program resolved ix b) (Adds-insert_programs resolved ixs _)

    Adds-observe_info :
        (info : TransactionInfo) (b : IndexBuilder R)
        → Adds o d v (info_mentions d v info) b (observe_info R o info b)
    unfolding observe_info
    Adds-observe_info info b = Adds-or (Adds-insert_if _ dim_signature (bytes info.signature) b) (
        Adds-or (Adds-insert_if info.is_vote dim_vote_flag (DimValue.bool true) _) (
          Adds-or (Adds-insert_if (has_err info) dim_failed_flag (DimValue.bool true) _) (
            Adds-or (Adds-insert_keys (resolved_keys info) _)
              (Adds-insert_programs (resolved_keys info) (instructions_of info) _))))

    Adds-account_info :
        (info : AccountInfo) (b : IndexBuilder R)
        → Adds o d v (account_mentions d v info) b (observe_account_info R o info b)
    unfolding observe_account_info
    Adds-account_info info b =
        Adds-or (Adds-insert_if _ dim_account_pubkey (bytes info.pubkey) b)
          (Adds-insert_if _ dim_owner_program (bytes info.owner) _)

    Adds-observe_oneof :
        (u : UpdateOneof) (s : Stream) (b : IndexBuilder R)
        → Adds o d v (oneof_mentions d v u s) b (observe_oneof R o u s b)
    unfolding observe_oneof observe_tx observe_acct observe_block
    Adds-observe_oneof (UpdateOneof.transaction t) tx b = elim (Option-cases t.transaction) [
      | inl e ↦ rw (e, observe_tx, oneof_mentions) (Adds-none b)
      | inr (info, e) ↦ rw (e, observe_tx, oneof_mentions) (Adds-observe_info info b)
    ]
    Adds-observe_oneof (UpdateOneof.account a) acct b = elim (Option-cases a.account) [
      | inl e ↦ rw (e, observe_acct, oneof_mentions) (Adds-none b)
      | inr (info, e) ↦ rw (e, observe_acct, oneof_mentions) (Adds-account_info info b)
    ]
    Adds-observe_oneof (UpdateOneof.block_meta m) block b =
        Adds-or (Adds-insert_value dim_slot (DimValue.u64 m.slot) b)
          (Adds-insert_value dim_parent_slot (DimValue.u64 m.parent_slot) _)
    Adds-observe_oneof _ _ b = Adds-none b

-- Observing a message adds its ordinal under exactly the dimensions and values that it mentions,
-- among the dimensions that the builder registered, and changes nothing else.
pub observe-Adds :
    (R : Roaring) (o : ℕ) (d : String) (v : DimValue) (update : SubscribeUpdate)
    (b : IndexBuilder R)
    → Adds R o d v (mentions d v b.stream update) b (observe R o update b)
unfolding observe
observe-Adds R o d v update b = elim (Option-cases update.update_oneof) [
  | inl e ↦ rw (e, observe, mentions) (Adds-none R o d v b)
  | inr (u, e) ↦ rw (e, observe, mentions) (Adds-observe_oneof R o d v u b.stream b)
]
