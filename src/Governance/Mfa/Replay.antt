-- ===== src/Governance/Mfa/Replay.antt =====
-- Codes of a window that was used already.
use contract_agent_capstone.Prelude.{
  ℕ, ◌+◌, ◌-◌, ◌≡◌, ◌≢◌, refl, true, Option, none, some, arith, ◌==◌, nat_eq, ne→beq, beq_refl,
  if◌then◌else◌,
}
use contract_agent_capstone.Prelude.Text.{Text, text_eq}
use contract_agent_capstone.Exec.{Result, ok}
use contract_agent_capstone.Governance.Mfa.{is_used, is_ascii, scan, verify_totp_code}

module _ (totp_at : Text → ℕ → Text) (secret : Text) where
  -- The three steps that a window of one step looks at.
  verify_around :
      (n : ℕ) (code : Text) (last : Option ℕ)
      → is_ascii code ≡ true
      → verify_totp_code totp_at secret code last 1 (n + 1) ≡ (
          let try = λ (k : ℕ) (rest : Result Text (Option ℕ)).
            if is_used last k
            then rest
            else if totp_at secret k == code
            then ok (some k)
            else rest in
          try n (try (n + 1) (try (n + 2) (ok none))))
  unfolding verify_totp_code scan
  verify_around n code last ascii =
      let e : n + 1 - 1 ≡ n = omega arith in
      let e' : n + 1 + 1 ≡ n + 2 = omega arith in rw (e, e', ascii) refl

  -- At one moment, with the window of one step, where the codes of step `n` and the next are ASCII
  -- and the codes of the two steps after `n` differ from that of `n`: the code of step `n` is
  -- accepted, and refused when it comes again at once; but after the code of the next step was
  -- accepted too, it is accepted a second time.
  pub replay_after_next :
      (n : ℕ)
      → is_ascii (totp_at secret n) ≡ true
      → is_ascii (totp_at secret (n + 1)) ≡ true
      → totp_at secret (n + 1) ≢ totp_at secret n
      → totp_at secret (n + 2) ≢ totp_at secret n
      → let verify = λ (k : ℕ) (last : Option ℕ).
        verify_totp_code totp_at secret (totp_at secret k) last 1 (n + 1) in
        (verify n none ≡ ok (some n))
        × (verify n (some n) ≡ ok none)
        × (verify (n + 1) (some n) ≡ ok (some (n + 1)))
        × (verify n (some (n + 1)) ≡ ok (some n))
  replay_after_next n digits digits' a b =
      let same = beq_refl (totp_at secret n) in
      let next = beq_refl (totp_at secret (n + 1)) in
      let d1 = ne→beq (totp_at secret (n + 1)) (totp_at secret n) a in
      let d2 = ne→beq (totp_at secret (n + 2)) (totp_at secret n) b in
      (
        rw (verify_around n (totp_at secret n) none digits) (ground (arith, same)),
        rw (verify_around n (totp_at secret n) (some n) digits) (ground (arith, d1, d2)),
        rw (verify_around n (totp_at secret (n + 1)) (some n) digits') (ground (arith, next)),
        rw (verify_around n (totp_at secret n) (some (n + 1)) digits) (ground (arith, same)),
      )
