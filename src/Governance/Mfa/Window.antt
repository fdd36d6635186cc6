-- ===== src/Governance/Mfa/Window.antt =====
-- What `verify_totp_code` accepts.
use mathlib.Core.Bool.{false≢true}
use native.Mathlib.Decide.{ℕ_discrete}
use contract_agent_capstone.Prelude.{
  ℕ, zero, suc, ◌+◌, ◌-◌, ◌*◌, ◌≤◌, ◌<◌, ◌≡◌, sym, ◌∙◌, ◌≢◌, ◌⊎◌, refl, true, false, Option, none,
  some, arith, inl, inr, Bool-cases, ◌==◌, nat_eq, beq→eq, eq→beq,
}
use contract_agent_capstone.Prelude.Text.{Text, text_eq}
use contract_agent_capstone.Exec.{Result, ok, err}
use contract_agent_capstone.Governance.Mfa.{is_used, is_ascii, not_ascii, scan, verify_totp_code}

module _ (totp_at : Text → ℕ → Text) (secret code : Text) (last : Option ℕ) where
  -- A step whose code is the one given, and that was not used last.
  abbrev pub IsFresh : ℕ → Type 0
  IsFresh step = (totp_at secret step ≡ code) × (last ≢ some step)

  -- A scan's answer: the first fresh step of its range, or that there is none; or an error for a
  -- code that cannot be compared, at a step that was not the last one used.
  abbrev Found : ℕ → ℕ → Result Text (Option ℕ) → Type 0
  Found from count (ok (some step)) =
      (from ≤ step)
      × (step < from + count)
      × IsFresh step
      × ((n : ℕ) → from ≤ n → n < step → ¬ IsFresh n)
      × (is_ascii code ≡ true)
  Found from count (ok none) =
      ((n : ℕ) → from ≤ n → n < from + count → ¬ IsFresh n)
      × ((is_ascii code ≡ true) ⊎ ((n : ℕ) → from ≤ n → n < from + count → last ≡ some n))
  Found from count (err e) =
      (e ≡ not_ascii)
      × (is_ascii code ≡ false)
      × ((n : ℕ) × (from ≤ n) × (n < from + count) × (last ≢ some n))

  Found-suc :
      (from count : ℕ) (r : Result Text (Option ℕ))
      → ¬ IsFresh from
      → (is_ascii code ≡ true) ⊎ (last ≡ some from)
      → Found (from + 1) count r
      → Found from (suc count) r
  Found-suc from count (ok none) stale passed (f, why) = (
    λ n lo hi. elim (ℕ_discrete n from) [
      | yes e ↦ rw e stale
      | no ne ↦ f n (omega arith) (omega arith)
    ],
    elim why [
      | inl ascii ↦ inl ascii
      | inr all ↦ elim passed [
        | inl ascii ↦ inl ascii
        | inr used ↦ inr (λ n lo hi. elim (ℕ_discrete n from) [
          | yes e ↦ rw e used
          | no ne ↦ all n (omega arith) (omega arith)
        ])
      ]
    ],
  )
  Found-suc from count (ok (some step)) stale passed (lo, hi, fresh, first, ascii) = (
    omega arith,
    omega arith,
    fresh,
    λ n l h. elim (ℕ_discrete n from) [ yes e ↦ rw e stale | no ne ↦ first n (omega arith) h ],
    ascii,
  )
  Found-suc from count (err e) stale passed (same, foreign, (n, lo, hi, unused)) =
      (same, foreign, (n, omega arith, omega arith, unused))

  is_used-eq : (step : ℕ) → is_used last step ≡ true → last ≡ some step
  is_used-eq step h = ground (arith, h)

  not_used : (step : ℕ) → is_used last step ≡ false → last ≢ some step
  not_used step h e = ground (arith, h)

  pub scan-Found : (count from : ℕ) → Found from count (scan totp_at secret code last from count)
  unfolding scan
  scan-Found zero from = (λ n lo hi. absurd (omega arith), inr (λ n lo hi. absurd (omega arith)))
  scan-Found (suc count) from = elim (Bool-cases (is_used last from)) [
    | inl used ↦
        rw (used, scan)
          (Found-suc from count _ (λ f. f.1 (is_used-eq from used)) (inr (is_used-eq from used))
            (scan-Found count (from + 1)))
    | inr unused ↦ elim (Bool-cases (is_ascii code)) [
      | inr foreign ↦
          rw (unused, foreign, scan)
            (refl, foreign, (from, omega arith, omega arith, not_used from unused))
      | inl ascii ↦ elim (Bool-cases (totp_at secret from == code)) [
        | inl same ↦
            rw (unused, ascii, same, scan)
              (
                omega arith,
                omega arith,
                (beq→eq (totp_at secret from) code same, not_used from unused),
                (λ n lo hi. absurd (omega arith)),
                ascii,
              )
        | inr other ↦
            rw (unused, ascii, other, scan)
              (Found-suc from count _
                (λ f. false≢true (sym other ∙ eq→beq (totp_at secret from) code f.0)) (inl ascii)
                (scan-Found count (from + 1)))
      ]
    ]
  ]

  -- What the answer says of the window `current - w` to `current + w`: an accepted step is the
  -- first in it whose code was given and that was not the last one used; a refusal means that no
  -- step of the window is such; and an error, that a code with a character outside ASCII came to be
  -- compared, which happens unless every step of the window is the last one used.
  abbrev pub Accepts : ℕ → ℕ → Result Text (Option ℕ) → Type 0
  Accepts w current (ok (some step)) =
      (current ≤ step + w)
      × (step ≤ current + w)
      × IsFresh step
      × ((n : ℕ) → current ≤ n + w → n < step → ¬ IsFresh n)
      × (is_ascii code ≡ true)
  Accepts w current (ok none) =
      ((n : ℕ) → current ≤ n + w → n ≤ current + w → ¬ IsFresh n)
      × ((is_ascii code ≡ true) ⊎ ((n : ℕ) → current ≤ n + w → n ≤ current + w → last ≡ some n))
  Accepts w current (err e) =
      (e ≡ not_ascii)
      × (is_ascii code ≡ false)
      × ((n : ℕ) × (current ≤ n + w) × (n ≤ current + w) × (last ≢ some n))

  Found-Accepts :
      (w current : ℕ) (r : Result Text (Option ℕ))
      → w ≤ current
      → Found (current - w) (2 * w + 1) r
      → Accepts w current r
  Found-Accepts w current (ok none) h (f, why) = (
    λ n lo hi. f n (omega arith) (omega arith),
    elim why [
      | inl ascii ↦ inl ascii
      | inr all ↦ inr (λ n lo hi. all n (omega arith) (omega arith))
    ],
  )
  Found-Accepts w current (ok (some step)) h (lo, hi, fresh, first, ascii) =
      (omega arith, omega arith, fresh, (λ n l m. first n (omega arith) m), ascii)
  Found-Accepts w current (err e) h (same, foreign, (n, lo, hi, unused)) =
      (same, foreign, (n, omega arith, omega arith, unused))

  -- A code is accepted exactly for a step of the window around the clock that has this code and is
  -- not the last used step, and then for the first such step; it is refused only if there is none;
  -- and a code with a character outside ASCII is never accepted: it raises, unless every step of the
  -- window was used last. The clock stands at least the window's width after the epoch.
  pub verify_totp_code-Accepts :
      (w current : ℕ)
      → w ≤ current
      → Accepts w current (verify_totp_code totp_at secret code last w current)
  unfolding verify_totp_code
  verify_totp_code-Accepts w current h =
      Found-Accepts w current _ h (scan-Found (2 * w + 1) (current - w))
