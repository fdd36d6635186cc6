-- ===== src/Cache/Memory/Window.antt =====
-- `rpush` then `ltrim` by -n, -1: how the trackers keep the last n samples of a list.
use contract_agent_capstone.Prelude.{
  ℕ, zero, suc, ◌+◌, ◌-◌, ◌≤◌, ◌≡◌, refl, ap, ◌∙◌, List, [], ◌∷◌, ◌++◌, arith, length, take, drop,
}
use contract_agent_capstone.Prelude.Dict.{lookup, insert, lookup-insert_self}
use contract_agent_capstone.Prelude.Text.{Text, text_eq}
use contract_agent_capstone.Exec.{ok}
use contract_agent_capstone.Cache.Client.{items}
use contract_agent_capstone.Cache.Slices.{at, last, slice}
use contract_agent_capstone.Cache.Memory.{Store, as_list, rpush, ltrim, lrange}

take_all {ℓ} : {A : Type ℓ} (xs : List A) → take (length xs) xs ≡ xs
take_all [] = refl
take_all (x ∷ xs) = ap (λ r. x ∷ r) (take_all xs)

length-drop {ℓ} : {A : Type ℓ} (n : ℕ) (xs : List A) → length (drop n xs) ≡ length xs - n
length-drop zero xs = omega arith
length-drop (suc n) [] = omega arith
length-drop (suc n) (x ∷ xs) = omega (arith, length-drop n xs)

slice_last {ℓ} :
    {A : Type ℓ} (xs : List A) (n : ℕ) → slice xs (last n) (last 0) ≡ drop (length xs - (n + 1)) xs
unfolding slice
slice_last xs n =
    ap (drop (length xs - (n + 1))) (ap (λ (m : ℕ). take m xs) (omega arith) ∙ take_all xs)

slice_whole {ℓ} : {A : Type ℓ} (xs : List A) → slice xs (at 0) (last 0) ≡ xs
unfolding slice
slice_whole xs = ap (λ (m : ℕ). take m xs) (omega arith) ∙ take_all xs

-- After appending values and trimming to the last n + 1, the list read back is what was there with
-- the values behind it, less all but its last n + 1 items, and it has at most n + 1 items.
pub window_keeps_last :
    (key : Text) (values : List Text) (n : ℕ) (s : Store)
    → let all = as_list (lookup key s) ++ values in
      let s' = (ltrim key (last n) (last 0) (rpush key values s).1).1 in
      ((lrange key (at 0) (last 0) s').0 ≡ ok (drop (length all - (n + 1)) all))
      × (length (drop (length all - (n + 1)) all) ≤ n + 1)
window_keeps_last key values n s =
    let all = as_list (lookup key s) ++ values in
    let e = lookup-insert_self key (items all) s in
    (
      rw e (
          rw
            (lookup-insert_self key (items (slice all (last n) (last 0)))
              (insert key (items all) s))
            (ap ok (slice_whole _ ∙ slice_last all n))),
      omega (arith, length-drop (length all - (n + 1)) all),
    )
