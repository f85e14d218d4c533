-- ===== src/Reader/Service/Admission.antt =====
-- The registry of customers of sillage-reader/src/grpc.rs and customer.rs, as customers come and
-- go.
use mathlib.Core.Bool.{◌&&◌, not}
use sillage.Prelude.{
  ℕ, suc, ◌^◌, ◌≤◌, ◌<◌, ◌≡◌, refl, sym, ap, Bool, String, List, [], ◌∷◌, ◌++◌, eqb, leb, Result,
  ok, err, ok_inj, filterb, length, length-append, add64, All, All-filterb, All-append, arith,
  Bool-cases, Result-cases, inl, inr,
}
use sillage.Reader.Service.{
  anonymous, token, client_beq, client_beq_iff, CustomerHandle, ConnectionLimits, Status, Metadata,
  validate_auth, is_of, admit, remove_from_registry, Inbound, Service, new_service, first_request,
  subscribe, leave, server_full, token_full,
}

-- The services that come from customers who come and go; `n` counts the calls of `subscribe`.
pub data Reach (tokens : List String) (limits : ConnectionLimits) : ℕ → Service → Type 0 where
  started : Reach tokens limits 0 new_service
  arrived :
      {n : ℕ} {s : Service} (m : Metadata) (inbound : Inbound)
      → Reach tokens limits n s
      → Reach tokens limits (suc n) (subscribe tokens limits m inbound s).1
  left :
      {n : ℕ} {s : Service} (id : ℕ) → Reach tokens limits n s → Reach tokens limits n (leave id s)

module _ {A : Type 0} where
  filterb-append :
      (p : A → Bool) (xs ys : List A) → filterb p (xs ++ ys) ≡ filterb p xs ++ filterb p ys
  filterb-append p [] ys = refl
  filterb-append p (x ∷ xs) ys = elim (Bool-cases (p x)) [
    | inl q ↦ rw q (ap (λ t. x ∷ t) (filterb-append p xs ys))
    | inr q ↦ rw q (filterb-append p xs ys)
  ]

  length-filterb-le : (p : A → Bool) (xs : List A) → length (filterb p xs) ≤ length xs
  length-filterb-le p [] = omega arith
  length-filterb-le p (x ∷ xs) = ground (arith, length-filterb-le p xs)

  -- A filtered list has no more of a kind.
  filterb-filterb-le :
      (p q : A → Bool) (xs : List A) → length (filterb p (filterb q xs)) ≤ length (filterb p xs)
  filterb-filterb-le p q [] = omega arith
  filterb-filterb-le p q (x ∷ xs) = ground (arith, filterb-filterb-le p q xs)

pub record WithinLimits (limits : ConnectionLimits) (customers : List CustomerHandle) : Type 0 where
  pub total : length customers ≤ limits.max_connections_total
  pub per_token :
      (i : ℕ) → length (filterb (is_of (token i)) customers) ≤ limits.max_connections_per_token

remove-WithinLimits :
    (limits : ConnectionLimits) (id : ℕ) (customers : List CustomerHandle)
    → WithinLimits limits customers
    → WithinLimits limits (remove_from_registry id customers)
unfolding remove_from_registry
remove-WithinLimits limits id customers w = record {
  total = omega (
    arith,
    w.total,
    length-filterb-le (λ (c : CustomerHandle). not (eqb c.customer_id id)) customers,
  );
  per_token = λ i. omega (
    arith,
    w.per_token i,
    filterb-filterb-le (is_of (token i)) (λ (c : CustomerHandle). not (eqb c.customer_id id))
        customers,
  );
}

-- What an admission changes.
admit-cases :
    (limits : ConnectionLimits) (handle : CustomerHandle) (customers after : List CustomerHandle)
    → admit limits handle customers ≡ ok after
    → (after ≡ customers ++ (handle ∷ []))
      × (length customers < limits.max_connections_total)
      × ((i : ℕ)
          → handle.client ≡ token i
          → length (filterb (is_of (token i)) customers) < limits.max_connections_per_token)
unfolding admit
admit-cases limits handle customers after h =
    let over : Bool =
      not (client_beq handle.client anonymous)
      && leb limits.max_connections_per_token (length (filterb (is_of handle.client) customers)) in
    elim (Bool-cases (leb limits.max_connections_total (length customers))) [
      | inl q ↦
          let bad : ◌≡◌ {A = Result Status (List CustomerHandle)} (err server_full) (ok after) =
            rw (admit, q) at h in
          cc
      | inr q ↦ elim (Bool-cases over) [
        | inl r ↦
            let bad : ◌≡◌ {A = Result Status (List CustomerHandle)} (err token_full) (ok after) =
              rw (admit, q, r) at h in
            cc
        | inr r ↦
            let done : ◌≡◌ {A = Result Status (List CustomerHandle)}
                (ok (customers ++ (handle ∷ []))) (ok after) =
              rw (admit, q, r) at h in
            (sym (ok_inj done), ground arith, λ i e. let room = rw e at r in ground arith)
      ]
    ]

admit-WithinLimits :
    (limits : ConnectionLimits) (handle : CustomerHandle) (customers after : List CustomerHandle)
    → admit limits handle customers ≡ ok after
    → WithinLimits limits customers
    → WithinLimits limits after
admit-WithinLimits limits handle customers after h w =
    let (e, room, room_of) = admit-cases limits handle customers after h in
    rw e (record {
      total = omega (arith, length-append customers (handle ∷ []), room);
      per_token = λ i. elim (Bool-cases (client_beq handle.client (token i))) [
        | inl q ↦
            rw (filterb-append (is_of (token i)) customers (handle ∷ []), q)
              (omega (
                arith,
                length-append (filterb (is_of (token i)) customers) (handle ∷ []),
                room_of i ((client_beq_iff handle.client (token i)).0 q),
              ))
        | inr q ↦
            rw (filterb-append (is_of (token i)) customers (handle ∷ []), q)
              (omega (arith, length-append (filterb (is_of (token i)) customers) [], w.per_token i))
      ];
    })

-- A subscription admits one customer, or changes no more than the counter.
subscribe-cases :
    (tokens : List String) (limits : ConnectionLimits) (m : Metadata) (inbound : Inbound)
    (s : Service) (Q : Service → Type 0)
    → Q s
    → Q (record s { connection_counter = add64 s.connection_counter 1 })
    → ((handle : CustomerHandle) (after : List CustomerHandle)
        → handle.customer_id ≡ s.connection_counter
        → admit limits handle s.customers ≡ ok after
        → Q (record { connection_counter = add64 s.connection_counter 1; customers = after }))
    → Q (subscribe tokens limits m inbound s).1
unfolding subscribe
subscribe-cases tokens limits m inbound s Q same counted more =
    elim (Result-cases (validate_auth tokens m)) [
      | inr (e, q) ↦ rw (subscribe, q) same
      | inl (client, q) ↦ elim (Result-cases (first_request inbound)) [
        | inr (e, r) ↦ rw (subscribe, q, r) counted
        | inl (parsed, r) ↦
            let handle : CustomerHandle = record {
              customer_id = s.connection_counter;
              client = client;
            } in
            elim (Result-cases (admit limits handle s.customers)) [
              | inr (e, t) ↦ rw (subscribe, q, r, t) counted
              | inl (after, t) ↦ rw (subscribe, q, r, t) (more handle after refl t)
            ]
      ]
    ]

-- However customers come and go, there are never more of them than the server's limit, nor more
-- with one token than the token's limit.
pub Reach-WithinLimits :
    (tokens : List String) (limits : ConnectionLimits) {n : ℕ} {s : Service}
    → Reach tokens limits n s
    → WithinLimits limits s.customers
unfolding new_service leave
Reach-WithinLimits tokens limits started = record {
  total = omega arith;
  per_token = λ i. omega arith;
}
Reach-WithinLimits tokens limits (arrived {s} m inbound r) =
    let w = Reach-WithinLimits tokens limits r in
    subscribe-cases tokens limits m inbound s (λ s. WithinLimits limits s.customers) w w
      (λ handle after id h. admit-WithinLimits limits handle s.customers after h w)
Reach-WithinLimits tokens limits (left {s} id r) =
    remove-WithinLimits limits id s.customers (Reach-WithinLimits tokens limits r)

-- The customers that have a name.
abbrev pub named : ℕ → List CustomerHandle → List CustomerHandle
named id customers = filterb (λ c. eqb c.customer_id id) customers

pub record Named (n : ℕ) (s : Service) : Type 0 where
  pub counted : s.connection_counter ≤ n
  pub below : All (λ c. c.customer_id < s.connection_counter) s.customers
  pub once : (id : ℕ) → length (named id s.customers) ≤ 1

named-none :
    (k id : ℕ) (customers : List CustomerHandle)
    → All (λ c. c.customer_id < k) customers
    → k ≤ id
    → length (named id customers) ≡ 0
named-none k id [] h le = refl
named-none k id (c ∷ cs) h le = ground (arith, named-none k id cs h.1 le)

All-lt-le :
    (j k : ℕ) (customers : List CustomerHandle)
    → j ≤ k
    → All (λ c. c.customer_id < j) customers
    → All (λ c. c.customer_id < k) customers
All-lt-le j k [] le h = tt
All-lt-le j k (c ∷ cs) le h = (omega (arith, le, h.0), All-lt-le j k cs le h.1)

admit-once :
    (limits : ConnectionLimits) (handle : CustomerHandle) (k : ℕ)
    (customers after : List CustomerHandle)
    → handle.customer_id ≡ k
    → All (λ c. c.customer_id < k) customers
    → ((id : ℕ) → length (named id customers) ≤ 1)
    → admit limits handle customers ≡ ok after
    → (All (λ c. c.customer_id < suc k) after) × ((id : ℕ) → length (named id after) ≤ 1)
admit-once limits handle k customers after e below once h =
    let (same, room, room_of) = admit-cases limits handle customers after h in
    rw same (
      All-append (λ c. c.customer_id < suc k) customers (handle ∷ [])
          (All-lt-le k (suc k) customers (omega arith) below) (omega (arith, e), tt),
      λ id. elim (Bool-cases (eqb handle.customer_id id)) [
        | inl q ↦
            rw
              (
                filterb-append (λ (c : CustomerHandle). eqb c.customer_id id) customers
                    (handle ∷ []),
                q,
              )
              (omega (
                arith,
                length-append (named id customers) (handle ∷ []),
                named-none k id customers below (ground arith),
              ))
        | inr q ↦
            rw
              (
                filterb-append (λ (c : CustomerHandle). eqb c.customer_id id) customers
                    (handle ∷ []),
                q,
              )
              (omega (arith, length-append (named id customers) [], once id))
      ],
    )

-- For fewer than 2^64 calls, no two registered customers have the same name, so that one who
-- leaves takes no other along.
pub Reach-Named :
    (tokens : List String) (limits : ConnectionLimits) {n : ℕ} {s : Service}
    → n < 2 ^ 64
    → Reach tokens limits n s
    → Named n s
unfolding new_service leave remove_from_registry
Reach-Named tokens limits h started = record {
  counted = omega arith;
  below = tt;
  once = λ id. omega arith;
}
Reach-Named tokens limits h (arrived {n} {s} m inbound r) =
    let k = Reach-Named tokens limits (omega (arith, h)) r in
    let next : add64 s.connection_counter 1 ≡ suc s.connection_counter =
      omega (arith, h, k.counted) in
    let up : All (λ c. c.customer_id < suc s.connection_counter) s.customers =
      All-lt-le s.connection_counter (suc s.connection_counter) s.customers (omega arith) k.below in
    subscribe-cases tokens limits m inbound s (Named (suc n))
      (record { counted = omega (arith, k.counted); below = k.below; once = k.once })
      (record { counted = omega (arith, k.counted, next); below = rw next up; once = k.once })
      (λ handle after id a.
        let (below, once) =
          admit-once limits handle s.connection_counter s.customers after id k.below k.once a in
        record { counted = omega (arith, k.counted, next); below = rw next below; once = once })
Reach-Named tokens limits h (left {s} id r) =
    let k = Reach-Named tokens limits h r in
    record {
      counted = k.counted;
      below =
          All-filterb (λ c. c.customer_id < s.connection_counter)
            (λ (c : CustomerHandle). not (eqb c.customer_id id)) s.customers k.below;
      once = λ j. omega (
        arith,
        k.once j,
        filterb-filterb-le (λ (c : CustomerHandle). eqb c.customer_id j)
            (λ (c : CustomerHandle). not (eqb c.customer_id id)) s.customers,
      );
    }
