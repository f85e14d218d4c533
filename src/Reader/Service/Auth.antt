-- ===== src/Reader/Service/Auth.antt =====
-- The token check of sillage-reader/src/grpc.rs.
use sillage.Prelude.{
  ℕ, zero, suc, ◌≡◌, ◌≢◌, ◌⊎◌, some_inj, refl, ap, Option, none, some, true, false, String, List,
  [], ◌∷◌, ◌==◌, string_eq, get_elem?, ok, err, Bool-cases, Option-cases, inl, inr,
}
use sillage.Reader.Service.{
  anonymous, token, unauthenticated, permission_denied, Metadata, token_of, known_token, position,
  validate_auth,
}

-- What `position` answers: the first index of the token.
abbrev pub FirstAt : String → List String → Option ℕ → Type 0
FirstAt t us none = (i : ℕ) → get_elem? us i ≢ some t
FirstAt t us (some i) = get_elem? us i ≡ some t

position-FirstAt : (t : String) (us : List String) → FirstAt t us (position t us)
unfolding position
position-FirstAt t [] = λ i bad. cc
position-FirstAt t (u ∷ us) = elim (Bool-cases (u == t)) [
  | inl q ↦ rw q (ap (λ x. some x) ((string_eq.beq_iff u t).0 q))
  | inr q ↦ go q (position t us) refl (position-FirstAt t us)
]
  where
    other :
        (u == t) ≡ false
        → (i : ℕ) → ((j : ℕ) → get_elem? us j ≢ some t)
        → get_elem? (u ∷ us) i ≢ some t
    other q zero h bad = let same : (u == t) ≡ true = (string_eq.beq_iff u t).1 (some_inj bad) in cc
    other q (suc i) h bad = h i bad

    go :
        (u == t) ≡ false
        → (o : Option ℕ) → position t us ≡ o
        → FirstAt t us o
        → FirstAt t (u ∷ us) (position t (u ∷ us))
    go q none e h = rw (position, q, e) (λ i. other q i h)
    go q (some i) e h = rw (position, q, e) h

-- How a caller fares.
abbrev pub Outcome : List String → Metadata → Type 0
Outcome tokens m =
    ((tokens ≡ []) × (validate_auth tokens m ≡ ok anonymous))
    ⊎ ((tokens ≢ []) × (token_of m ≡ none) × (validate_auth tokens m ≡ err unauthenticated))
    ⊎ ((t : String) × (token_of m ≡ some t)
        × ((validate_auth tokens m ≡ err permission_denied)
            × ((i : ℕ) → get_elem? tokens i ≢ some t)))
    ⊎ ((t : String) × (token_of m ≡ some t)
        × ((i : ℕ) × (validate_auth tokens m ≡ ok (token i)) × (get_elem? tokens i ≡ some t)))

-- With no token configured everyone is let in, anonymously; otherwise a caller without a token is
-- unauthenticated, one with an unknown token is denied, and one with a known token is named by an
-- index of it.
pub validate_auth-FirstAt : (tokens : List String) (m : Metadata) → Outcome tokens m
unfolding validate_auth
validate_auth-FirstAt [] m = inl (refl, refl)
validate_auth-FirstAt (t ∷ ts) m = elim (Option-cases (token_of m)) [
  | inl n ↦ inr (inl (λ bad. cc, n, rw n refl))
  | inr (u, n) ↦ go u n (position u (t ∷ ts)) refl (position-FirstAt u (t ∷ ts))
]
  where
    go :
        (u : String)
        → token_of m ≡ some u
        → (o : Option ℕ) → position u (t ∷ ts) ≡ o
        → FirstAt u (t ∷ ts) o
        → Outcome (t ∷ ts) m
    go u n none e h = inr (
        inr (
          inl (
            u,
            n,
            (
              (let denied : known_token (t ∷ ts) (some u) ≡ err permission_denied =
                    rw (known_token, e) refl in
                  rw n denied),
              h,
            ),
          )))
    go u n (some i) e h = inr (
        inr (
          inr (
            u,
            n,
            (
              i,
              (let known : known_token (t ∷ ts) (some u) ≡ ok (token i) =
                    rw (known_token, e) refl in
                  rw n known),
              h,
            ),
          )))
