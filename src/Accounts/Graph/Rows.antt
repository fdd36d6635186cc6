-- ===== src/Accounts/Graph/Rows.antt =====
-- What a query finds after a write.
use mathlib.Core.Bool.{false≢true}
use mathlib.Core.List.{Memᴰ}
use contract_agent_capstone.Prelude.{
  ◌≡◌, refl, sym, ap, ◌∙◌, ◌≢◌, Bool, true, false, some, List, [], ◌∷◌, ◌++◌, arith, keep, All,
  All-append, eq→beq, inl, inr, Bool-cases,
}
use contract_agent_capstone.Prelude.Text.{Text, text_eq}
use contract_agent_capstone.Accounts.Graph.{User, named, update, first_row}

module _ {ℓ} {A : Type ℓ} where
  pub keep-append : (p : A → Bool) (xs ys : List A) → keep p (xs ++ ys) ≡ keep p xs ++ keep p ys
  keep-append p [] ys = refl
  keep-append p (x ∷ xs) ys = ground (arith, keep-append p xs ys)

  -- Nothing satisfies a test any more that every member which satisfied it is changed to fail.
  pub keep-update_none :
      (p q : A → Bool) (f : A → A) (xs : List A)
      → ((x : A) → p x ≡ true → q (f x) ≡ false)
      → ((x : A) → p x ≡ false → q x ≡ false)
      → keep q (update p f xs) ≡ []
  keep-update_none p q f [] a b = refl
  keep-update_none p q f (x ∷ xs) a b = elim (Bool-cases (p x)) [
    | inl e ↦ rw (e, a x e) (keep-update_none p q f xs a b)
    | inr e ↦ rw (e, b x e) (keep-update_none p q f xs a b)
  ]

  pub update_none : (p : A → Bool) (f : A → A) (xs : List A) → keep p xs ≡ [] → update p f xs ≡ xs
  update_none p f [] h = refl
  update_none p f (x ∷ xs) h = elim (Bool-cases (p x)) [
    | inl e ↦ cc (rw e at h)
    | inr e ↦ rw e (ap (λ r. x ∷ r) (update_none p f xs (rw e at h)))
  ]

  -- The row that a query returns is a node of the graph that passes the query's test.
  pub first_row-keep :
      (p : A → Bool) (x : A) (xs : List A)
      → first_row (keep p xs) ≡ some x
      → Memᴰ x xs × (p x ≡ true)
  first_row-keep p x [] h = cc
  first_row-keep p x (y ∷ xs) h = elim (Bool-cases (p y)) [
    | inl e ↦ let same : x ≡ y = cc (rw e at h) in (Memᴰ.head same, rw same e)
    | inr e ↦ let (m, t) = first_row-keep p x xs (rw e at h) in (Memᴰ.tail m, t)
  ]

  -- The first row of a query is that of a narrower one, if it passes that.
  pub first_row-keep_narrow :
      (p q : A → Bool) (x : A) (xs : List A)
      → ((y : A) → q y ≡ true → p y ≡ true)
      → first_row (keep p xs) ≡ some x
      → q x ≡ true
      → first_row (keep q xs) ≡ some x
  first_row-keep_narrow p q x [] sub h t = cc
  first_row-keep_narrow p q x (y ∷ xs) sub h t = elim (Bool-cases (p y)) [
    | inl e ↦ let same : y ≡ x = cc (rw e at h) in rw same (rw t)
    | inr e ↦ elim (Bool-cases (q y)) [
      | inl f ↦ cc (sub y f)
      | inr f ↦ rw f (first_row-keep_narrow p q x xs sub (rw e at h) t)
    ]
  ]

-- No two nodes have one username.
abbrev pub IsUnique : List User → Type 0
IsUnique [] = Unit
IsUnique (u ∷ us) = All (λ v. v.username ≢ u.username) us × IsUnique us

no_match-ne :
    (name : Text) (us : List User) → keep (named name) us ≡ [] → All (λ v. v.username ≢ name) us
no_match-ne name [] h = tt
no_match-ne name (u ∷ us) h = elim (Bool-cases (named name u)) [
  | inl e ↦ cc (rw e at h)
  | inr e ↦ (λ p. false≢true (sym e ∙ eq→beq u.username name p), no_match-ne name us (rw e at h))
]

-- The names that differ from another, after a node is added or nodes are changed.
ne-update :
    (name : Text) (p : User → Bool) (f : User → User) (us : List User)
    → ((u : User) → (f u).username ≡ u.username)
    → All (λ v. v.username ≢ name) us
    → All (λ v. v.username ≢ name) (update p f us)
ne-update name p f [] same h = tt
ne-update name p f (u ∷ us) same (h, hs) = elim (Bool-cases (p u)) [
  | inl e ↦ (rw e (rw (same u) h), ne-update name p f us same hs)
  | inr e ↦ (rw e h, ne-update name p f us same hs)
]

-- A change that keeps the names keeps them apart.
pub IsUnique-update :
    (p : User → Bool) (f : User → User) (us : List User)
    → ((u : User) → (f u).username ≡ u.username)
    → IsUnique us
    → IsUnique (update p f us)
IsUnique-update p f [] same w = tt
IsUnique-update p f (u ∷ us) same (h, w) = elim (Bool-cases (p u)) [
  | inl e ↦ (rw e (rw (same u) (ne-update u.username p f us same h)), IsUnique-update p f us same w)
  | inr e ↦ (rw e (ne-update u.username p f us same h), IsUnique-update p f us same w)
]

-- A node under a name that no node has keeps the names apart.
pub IsUnique-add :
    (u : User) (us : List User)
    → keep (named u.username) us ≡ []
    → IsUnique us
    → IsUnique (us ++ (u ∷ []))
IsUnique-add u [] h w = (tt, tt)
IsUnique-add u (v ∷ us) h (apart, w) = elim (Bool-cases (named u.username v)) [
  | inl e ↦ cc (rw e at h)
  | inr e ↦ (
    All-append (λ (x : User). x.username ≢ v.username) us (u ∷ []) apart
        ((λ p. false≢true (sym e ∙ eq→beq v.username u.username (sym p))), tt),
    IsUnique-add u us (rw e at h) w,
  )
]
