-- ===== src/Accounts/Invites/SingleUse.antt =====
-- The life of an invite: its preview and its use.
use mathlib.Core.List.{Memᴰ}
use contract_agent_capstone.Prelude.{
  ℕ, ◌≤◌, ◌<◌, ◌≡◌, refl, ◌≢◌, true, false, Option, none, some, arith, keep, inl, inr, Option-cases,
}
use contract_agent_capstone.Prelude.Text.{Text, text_eq}
use contract_agent_capstone.Accounts.Graph.{Invite, Graph, first_row, with_hash, match_invite}
use contract_agent_capstone.Accounts.Graph.Rows.{
  keep-update_none, update_none, first_row-keep, first_row-keep_narrow,
}
use contract_agent_capstone.Accounts.Crypto.{Crypto}
use contract_agent_capstone.Accounts.Invites.{
  InviteRecord, record_of, previewed, get_invite, consumable, use_at, consume_invite,
}

module _ (K : Crypto) where
  spent_stays_spent :
      (now later : ℕ) (h : Text) (i : Invite)
      → consumable K now h i ≡ true
      → consumable K later h (use_at K now i) ≡ false
  spent_stays_spent now later h i p = ground arith

  dead_stays_dead :
      (now later : ℕ) (h : Text) (i : Invite)
      → now ≤ later
      → consumable K now h i ≡ false
      → consumable K later h i ≡ false
  dead_stays_dead now later h i le p = ground arith

  -- After any attempt to consume a token, a later attempt with the same token finds no invite and
  -- changes nothing: a token is worth one account at most.
  pub consume_once :
      (now later : ℕ) (token : Text) (g : Graph)
      → now ≤ later
      → consume_invite K later token (consume_invite K now token g).1
        ≡ (none, (consume_invite K now token g).1)
  unfolding consume_invite
  consume_once now later token g le =
      let h = K.sha256 token in
      let none_left =
        keep-update_none (consumable K now h) (consumable K later h) (use_at K now) g.invites
          (λ i p. spent_stays_spent now later h i p) (λ i p. dead_stays_dead now later h i le p) in
      rw (none_left, consume_invite)
        (rw (update_none (consumable K later h) (use_at K later) _ none_left))

  -- What is consumed was an invite of the database that the token's hash names, that was not used,
  -- and whose expiry lay ahead.
  pub consume_sound :
      (now : ℕ) (token : Text) (g : Graph) (r : InviteRecord)
      → (consume_invite K now token g).0 ≡ some r
      → (i : Invite) × Memᴰ i g.invites
        × (i.token_hash ≡ K.sha256 token)
        × (i.used_at ≡ none)
        × (now < i.expires_at)
        × (r ≡ record_of (use_at K now i))
  unfolding consume_invite
  consume_sound now token g r h =
      elim (Option-cases (first_row (keep (consumable K now (K.sha256 token)) g.invites))) [
        | inl e ↦ cc (rw (e, consume_invite) at h)
        | inr (i, e) ↦
            let (m, p) = first_row-keep (consumable K now (K.sha256 token)) i g.invites e in
            (
              i,
              m,
              ground (arith, p, text_eq.same_iff i.token_hash (K.sha256 token)),
              ground (arith, p),
              ground (arith, p),
              ground (arith, e, h),
            )
      ]

  -- The preview shows an invite of the token's hash that was not used and has not expired.
  preview_sound :
      (now : ℕ) (o : Option Invite) (r : InviteRecord)
      → previewed K now o ≡ some r
      → (i : Invite) × (o ≡ some i) × (r ≡ record_of i) × (i.used_at ≡ none) × (now ≤ i.expires_at)
  preview_sound now none r h = cc
  preview_sound now (some i) r h =
      (i, refl, ground (arith, h), ground (arith, h), ground (arith, h))

  -- An invite that the preview shows can be consumed with the same token at the same time, and
  -- gives the email, tenant and role shown, except at the very instant of its expiry.
  pub preview-consume :
      (now : ℕ) (token : Text) (g : Graph) (r : InviteRecord)
      → get_invite K now token g ≡ some r
      → r.expires_at ≢ now
      → (consume_invite K now token g).0 ≡ some (record r { used_at = some now })
  unfolding get_invite match_invite consume_invite
  preview-consume now token g r h ne =
      let hash = K.sha256 token in
      let (i, e, same, unused, alive) =
        preview_sound now (first_row (keep (with_hash hash) g.invites)) r h in
      let (_, named) = first_row-keep (with_hash hash) i g.invites e in
      let live : consumable K now hash i ≡ true = ground (arith, named, unused, same, alive, ne) in
      let found =
        first_row-keep_narrow (with_hash hash) (consumable K now hash) i g.invites
          (λ y p. ground (arith, p)) e live in
      rw (found, consume_invite) (rw same)
