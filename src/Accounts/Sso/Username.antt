-- ===== src/Accounts/Sso/Username.antt =====
-- The username made from an email.
use contract_agent_capstone.Prelude.{
  ℕ, zero, suc, ◌≤◌, ◌≡◌, refl, Bool, true, false, List, [], ◌∷◌, ◌++◌, length, take, keep, all,
  ltb, leb, arith, inl, inr, Bool-cases, length-append, le→leb,
}
use contract_agent_capstone.Prelude.Text.{Text, codes}
use contract_agent_capstone.Accounts.Users.{username_char, valid_username}
use contract_agent_capstone.Accounts.Sso.{local_part, or_text, padded, username_from_email}

module _ {A : Type 0} (p : A → Bool) where
  all-keep : (xs : List A) → all p (keep p xs) ≡ true
  all-keep [] = refl
  all-keep (x ∷ xs) = ground (arith, all-keep xs)

  all-take : (n : ℕ) (xs : List A) → all p xs ≡ true → all p (take n xs) ≡ true
  all-take zero xs h = refl
  all-take (suc n) [] h = refl
  all-take (suc n) (x ∷ xs) h = ground (arith, h, all-take n xs)

  all-append : (xs ys : List A) → all p xs ≡ true → all p ys ≡ true → all p (xs ++ ys) ≡ true
  all-append [] ys h k = k
  all-append (x ∷ xs) ys h k = ground (arith, h, all-append xs ys)

length-take {ℓ} : {A : Type ℓ} (n : ℕ) (xs : List A) → n ≤ length xs → length (take n xs) ≡ n
length-take zero xs h = refl
length-take (suc n) [] h = absurd (omega arith)
length-take (suc n) (x ∷ xs) h = omega (arith, length-take n xs (omega arith))

take_short {ℓ} : {A : Type ℓ} (n : ℕ) (xs : List A) → length xs ≤ n → take n xs ≡ xs
take_short zero [] h = refl
take_short zero (x ∷ xs) h = absurd (omega arith)
take_short (suc n) [] h = refl
take_short (suc n) (x ∷ xs) h = ground (arith, h, take_short n xs)

abbrev IsLong : Text → Type 0
IsLong t = (3 ≤ length t) × (all username_char t ≡ true)

padded-IsLong : (t : Text) → all username_char t ≡ true → IsLong (padded t)
padded-IsLong t h = elim (Bool-cases (ltb (length t) 3)) [
  | inl e ↦
      let long : 3 ≤ length (t ++ codes "000") = omega (arith, length-append t (codes "000")) in
      rw e (
        omega (arith, length-take 3 (t ++ codes "000") long),
        all-take username_char 3 (t ++ codes "000")
            (all-append username_char t (codes "000") h refl),
      )
  | inr e ↦ rw e (ground (arith, e), h)
]

or_text_chars :
    (t : Text) → all username_char t ≡ true → all username_char (or_text t (codes "user")) ≡ true
or_text_chars [] h = refl
or_text_chars (c ∷ t) h = h

not_over : (n : ℕ) → leb 64 n ≡ false → leb n 64 ≡ true
not_over n h = ground arith

cut-valid_username : (t : Text) → IsLong t → valid_username (take 64 t) ≡ true
unfolding valid_username
cut-valid_username t (long, chars) = elim (Bool-cases (leb 64 (length t))) [
  | inl e ↦
      let n = length-take 64 t (ground (arith, e)) in
      let c = all-take username_char 64 t chars in rw (n, c)
  | inr e ↦
      let same = take_short 64 t (ground (arith, e)) in
      let low = le→leb 3 (length t) long in rw (same, low, not_over (length t) e, chars)
]

-- The username made from any email is well formed: 3 to 64 characters, of those allowed.
pub username_from_email-valid_username :
    (email : Text) → valid_username (username_from_email email) ≡ true
unfolding username_from_email
username_from_email-valid_username email =
    let kept = keep username_char (local_part email) in
    cut-valid_username (padded (or_text kept (codes "user"))) (
      padded-IsLong (or_text kept (codes "user"))
        (or_text_chars kept (all-keep username_char (local_part email))))
