-- ===== src/Reader/Pacing/Targets.antt =====
-- The instants at which a paced replay emits, and the spacing of its warnings
-- (sillage-reader/src/pacing.rs).
use sillage.Prelude.{
  ℕ, ◌+◌, ◌-◌, ◌≤◌, ◌<◌, ◌≡◌, refl, Option, none, some, true, List, [], ◌∷◌, arith,
}
use sillage.Reader.Pacing.{
  PacingConfig, Pacer, on_time, warn, drop_client, warn_gap, from_config, target, may_warn,
  observe_emit,
}

-- The instants of the warnings while messages due at `due` are emitted at `now`.
unfoldable pub warnings : List (ℕ × ℕ) → Pacer → List ℕ
unfolding observe_emit
warnings [] p = []
warnings ((now, due) ∷ es) p =
    let (action, p') = observe_emit now due p in
    let rest = warnings es p' in
    elim action [ on_time ↦ rest | warn lag ↦ now ∷ rest | drop_client lag ↦ rest ]

-- Each is more than the gap after the one before it, and the first after `last`.
abbrev pub Spaced : Option ℕ → List ℕ → Type 0
Spaced last [] = Unit {0}
Spaced none (t ∷ ts) = Spaced (some t) ts
Spaced (some s) (t ∷ ts) = (s + warn_gap < t) × Spaced (some t) ts

warnings-Spaced_from : (es : List (ℕ × ℕ)) (p : Pacer) → Spaced p.last_warn (warnings es p)
unfolding warnings observe_emit may_warn
warnings-Spaced_from [] p = tt
warnings-Spaced_from ((now, due) ∷ es) p =
    ground (
      arith,
      warnings-Spaced_from es p,
      warnings-Spaced_from es (record p { last_warn = some now }),
    )

-- However messages are emitted, two warnings of a replay are more than ten seconds apart.
pub warnings-Spaced :
    (cfg : PacingConfig) (es : List (ℕ × ℕ)) → Spaced none (warnings es (from_config cfg))
unfolding from_config
warnings-Spaced cfg es = warnings-Spaced_from es (from_config cfg)

-- The instants at which messages of the given source times are due, each computed when the clock
-- shows `now`.
unfoldable pub targets : (ℕ → ℕ) → List (ℕ × ℕ) → Pacer → List ℕ
unfolding target
targets scale [] p = []
targets scale ((now, ts) ∷ es) p =
    let (due, p') = target scale now (some ts) p in due ∷ targets scale es p'

-- In order, and none before `low`.
abbrev pub Rising : ℕ → List ℕ → Type 0
Rising low [] = Unit {0}
Rising low (t ∷ ts) = (low ≤ t) × Rising t ts

-- Source times in order, none before `low`.
abbrev pub InOrder : ℕ → List (ℕ × ℕ) → Type 0
InOrder low [] = Unit {0}
InOrder low ((now, ts) ∷ es) = (low ≤ ts) × InOrder ts es

Rising-weaken : (a b : ℕ) (ts : List ℕ) → a ≤ b → Rising b ts → Rising a ts
Rising-weaken a b [] h r = tt
Rising-weaken a b (t ∷ ts) h r = (omega (arith, r.0), r.1)

targets-anchored :
    (scale : ℕ → ℕ) (mono : (a b : ℕ) → a ≤ b → scale a ≤ scale b) (es : List (ℕ × ℕ)) (p : Pacer)
    (a r low : ℕ)
    → p.enabled ≡ true
    → p.anchor ≡ some (a, r)
    → InOrder low es
    → Rising (r + scale (low - a)) (targets scale es p)
unfolding targets target
targets-anchored scale mono [] p a r low on at order = tt
targets-anchored scale mono ((now, ts) ∷ es) p a r low on at order =
    rw (targets, target, on, at)
      (
        omega (arith, mono (low - a) (ts - a) (omega (arith, order.0))),
        targets-anchored scale mono es p a r ts on at order.1,
      )

-- With pacing on and messages in the order of their source times, they are due in order, and none
-- before the first was, whenever each is looked at; `scale` is any monotone division by the speed.
pub targets-Rising :
    (scale : ℕ → ℕ) (mono : (a b : ℕ) → a ≤ b → scale a ≤ scale b) (cfg : PacingConfig) (now ts : ℕ)
    (es : List (ℕ × ℕ))
    → cfg.enabled ≡ true
    → InOrder ts es
    → Rising now (targets scale ((now, ts) ∷ es) (from_config cfg))
unfolding targets target from_config
targets-Rising scale mono cfg now ts es on order =
    rw (target, on)
      (
        omega arith,
        Rising-weaken now (now + scale (ts - ts)) _ (omega arith) (
            targets-anchored scale mono es
              (record (from_config cfg) { enabled = true; anchor = some (ts, now) }) ts now ts refl
              refl order),
      )
