-- ===== src/Prelude/Lists.antt =====
-- Lists measured by native numbers, under the library's names, and predicates on all members.
use Prim.Native.Nat.{ℕ, zero, suc, ◌+◌}
use mathlib.Core.Path.{◌≡◌, refl, sym, ap, ◌∙◌}
use mathlib.Core.Bool.{Bool, true, false, ◌&&◌, ◌||◌}
use mathlib.Core.List.{List, [], ◌∷◌, ◌++◌}
use mathlib.Core.Option.{Option, none, some}
use native.Mathlib.Omega.{arith}
use package.contract_agent_capstone.Prelude.Tests.{if◌then◌else◌}

module _ {ℓ} {A : Type ℓ} where
  abbrev pub length : List A → ℕ
  length [] = 0
  length (x ∷ xs) = suc (length xs)

  abbrev pub take : ℕ → List A → List A
  take zero xs = []
  take (suc n) [] = []
  take (suc n) (x ∷ xs) = x ∷ take n xs

  abbrev pub drop : ℕ → List A → List A
  drop zero xs = xs
  drop (suc n) [] = []
  drop (suc n) (x ∷ xs) = drop n xs

  -- Python's `any(p(x) for x in xs)` and `all(…)`.
  abbrev pub any : (A → Bool) → List A → Bool
  any p [] = false
  any p (x ∷ xs) = p x || any p xs

  abbrev pub all : (A → Bool) → List A → Bool
  all p [] = true
  all p (x ∷ xs) = p x && all p xs

  -- `[x for x in xs if p(x)]`
  abbrev pub keep : (A → Bool) → List A → List A
  keep p [] = []
  keep p (x ∷ xs) = if p x then x ∷ keep p xs else keep p xs

  -- `next((x for x in xs if p(x)), None)`
  abbrev pub first : (A → Bool) → List A → Option A
  first p [] = none
  first p (x ∷ xs) = if p x then some x else first p xs

  pub length-append : (xs ys : List A) → length (xs ++ ys) ≡ length xs + length ys
  length-append [] ys = omega arith
  length-append (x ∷ xs) ys = omega (arith, length-append xs ys)

pub take-append {ℓ} : {A : Type ℓ} (n : ℕ) (xs ys : List A) → n ≡ length xs → take n (xs ++ ys) ≡ xs
take-append n [] ys h = rw h refl
take-append n (x ∷ xs) ys h = rw (h, take-append (length xs) xs ys refl) refl

pub drop-append {ℓ} : {A : Type ℓ} (n : ℕ) (xs ys : List A) → n ≡ length xs → drop n (xs ++ ys) ≡ ys
drop-append n [] ys h = rw h refl
drop-append n (x ∷ xs) ys h = rw h (drop-append (length xs) xs ys refl)

pub append_assoc {ℓ} : {A : Type ℓ} (xs ys zs : List A) → (xs ++ ys) ++ zs ≡ xs ++ (ys ++ zs)
append_assoc [] ys zs = refl
append_assoc (x ∷ xs) ys zs = rw (append_assoc xs ys zs) refl

pub append_cancel_left {ℓ} : {A : Type ℓ} (xs ys zs : List A) → xs ++ ys ≡ xs ++ zs → ys ≡ zs
append_cancel_left xs ys zs h =
    sym (drop-append (length xs) xs ys refl)
    ∙ (ap (drop (length xs)) h ∙ drop-append (length xs) xs zs refl)

pub append_cancel_right {ℓ} : {A : Type ℓ} (xs ys zs : List A) → xs ++ zs ≡ ys ++ zs → xs ≡ ys
append_cancel_right xs ys zs h =
    let sizes : length (xs ++ zs) ≡ length (ys ++ zs) = ap length h in
    let size : length xs ≡ length ys =
      omega (arith, sizes, length-append xs zs, length-append ys zs) in
    sym (take-append (length xs) xs zs refl)
    ∙ (ap (take (length xs)) h ∙ take-append (length xs) ys zs size)

-- Every member satisfies `Q`; it computes to a tuple.
abbrev pub All {ℓ κ} : {V : Type ℓ} (Q : V → Type κ) → List V → Type κ
All Q [] = Unit
All Q (v ∷ vs) = Q v × All Q vs

pub All-append {ℓ κ} :
    {V : Type ℓ} (Q : V → Type κ) (vs ws : List V) → All Q vs → All Q ws → All Q (vs ++ ws)
All-append Q [] ws left right = right
All-append Q (v ∷ vs) ws (here, left) right = (here, All-append Q vs ws left right)

pub All-map {ℓ κ} :
    {A : Type ℓ} {P Q : A → Type κ} → ((a : A) → P a → Q a) → (xs : List A) → All P xs → All Q xs
All-map f [] all = tt
All-map f (x ∷ xs) (here, all) = (f x here, All-map f xs all)
