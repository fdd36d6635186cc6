-- ===== src/Monitoring/Hallucination.antt =====
-- backend/shared/monitoring/hallucination_tracker.py, and that its counters add up.
use contract_agent_capstone.Prelude.{
  ℕ, ◌+◌, ◌≡◌, ◌≢◌, refl, sym, ap, ◌∙◌, ◌⊎◌, inl, inr, true, false, Option, none, some, List, [],
  ◌∷◌, ◌++◌, map, arith, append_cancel_left, ◌==◌, beq→eq, if◌then◌else◌, nat_eq, Bool-cases,
}
use contract_agent_capstone.Prelude.Text.{Text, codes, text_eq, last_char, last_char-append}
use contract_agent_capstone.Prelude.Dict.{lookup, insert, lookup-insert_self, lookup-insert_ne}
use contract_agent_capstone.Exec.{ok, Exec, ◌>>◌, pure}
use contract_agent_capstone.Cache.Client.{Value, number, Exception}
use contract_agent_capstone.Cache.Memory.{Store, as_set, as_int, sadd, incrby}
use contract_agent_capstone.Policy.Evaluation.{sorted}
use contract_agent_capstone.Monitoring.{swallow, count_of, count_or_zero}

abbrev pub categories_key : Text
categories_key = codes "hallucination_tracking:" ++ codes "categories"

abbrev pub total_key : Text → Text
total_key category = codes "hallucination_tracking:" ++ (category ++ codes ":total")

abbrev pub flagged_key : Text → Text
flagged_key category = codes "hallucination_tracking:" ++ (category ++ codes ":flagged")

abbrev count_flagged : Text → ℕ → Exec Store Exception Unit
count_flagged category flagged =
    if flagged == 0 then pure tt else incrby (flagged_key category) flagged >> pure tt

unfoldable pub record_checks : Text → ℕ → ℕ → Store → Store
record_checks category total flagged s =
    if total == 0
    then s
    else swallow
        (sadd categories_key (category ∷ [])
          >> (incrby (total_key category) total >> count_flagged category flagged))
        s

pub record Counts : Type 0 where
  pub total : ℕ
  pub flagged : ℕ

unfoldable pub read_category : Store → Text → Counts
read_category s category = record {
  total = count_of (lookup (total_key category) s);
  flagged = count_of (lookup (flagged_key category) s);
}

abbrev sum_of : List Counts → Counts
sum_of [] = record { total = 0; flagged = 0 }
sum_of (c ∷ cs) =
    let rest = sum_of cs in
    record { total = c.total + rest.total; flagged = c.flagged + rest.flagged }

-- The totals overall, and those by category.
unfoldable pub get_summary : Store → Counts × List (Text × Counts)
get_summary s =
    let by_category =
      map (λ c. (c, read_category s c)) (sorted (as_set (lookup categories_key s))) in
    (sum_of (map (λ p. p.1) by_category), by_category)

total_ne_flagged : (c : Text) → total_key c ≢ flagged_key c
total_ne_flagged c h =
    let tails =
      append_cancel_left (codes "hallucination_tracking:") (c ++ codes ":total")
        (c ++ codes ":flagged") h in
    let ends : codes ":total" ≡ codes ":flagged" =
      append_cancel_left c (codes ":total") (codes ":flagged") tails in
    cc

-- No category makes the key of the set of categories.
categories_ne :
    (c word : Text)
    → last_char (b':' ∷ word) ≢ b's'
    → categories_key ≢ codes "hallucination_tracking:" ++ (c ++ (b':' ∷ word))
categories_ne c word no_s h =
    let tails =
      append_cancel_left (codes "hallucination_tracking:") (codes "categories") (c ++ (b':' ∷ word))
        h in
    no_s (sym (last_char-append c b':' word) ∙ sym (ap last_char tails))

-- What a key holds is a number, or nothing.
abbrev pub IsCounter : Option Value → Type 0
IsCounter v = (v ≡ none) ⊎ ((n : ℕ) × (v ≡ some (number n)))

-- The store once the category is in the set.
abbrev with_category : Text → Store → Store
with_category category s = (sadd categories_key (category ∷ []) s).1

counter_value : (v : Option Value) → IsCounter v → (n : ℕ) × (as_int v ≡ ok n)
counter_value v (inl e) = (0, rw e refl)
counter_value v (inr (n, e)) = (n, rw e refl)

unset_total :
    (category : Text) (s : Store)
    → lookup (total_key category) (with_category category s) ≡ lookup (total_key category) s
unset_total category s =
    lookup-insert_ne categories_key (total_key category) _ s
      (categories_ne category (codes "total") (λ e. omega (arith, e)))

unset_flagged :
    (category : Text) (s : Store)
    → lookup (flagged_key category) (with_category category s) ≡ lookup (flagged_key category) s
unset_flagged category s =
    lookup-insert_ne categories_key (flagged_key category) _ s
      (categories_ne category (codes "flagged") (λ e. omega (arith, e)))

-- The store after one recording, with what the two counters held before.
written :
    (category : Text) (total flagged m n : ℕ) (s : Store)
    → (total == 0) ≡ false
    → as_int (lookup (total_key category) (with_category category s)) ≡ ok m
    → as_int (
        lookup
          (flagged_key category)
          (insert (total_key category) (number (m + total)) (with_category category s)))
      ≡ ok n
    → record_checks category total flagged s ≡ (
        let s' = insert (total_key category) (number (m + total)) (with_category category s) in
        if flagged == 0 then s' else insert (flagged_key category) (number (n + flagged)) s')
unfolding record_checks
written category total flagged m n s h p q = ground (arith, h, p, q)

nothing_checked :
    (category : Text) (total flagged : ℕ) (s : Store)
    → (total == 0) ≡ true
    → record_checks category total flagged s ≡ s
unfolding record_checks
nothing_checked category total flagged s h = rw h refl

-- The counters after a recording of something checked, from what they held before.
added :
    (category : Text) (total flagged m n : ℕ) (s : Store)
    → (total == 0) ≡ false
    → as_int (lookup (total_key category) s) ≡ ok m
    → as_int (lookup (flagged_key category) s) ≡ ok n
    → (count_of (lookup (total_key category) (record_checks category total flagged s)) ≡ m + total)
      × (count_of (lookup (flagged_key category) (record_checks category total flagged s))
          ≡ n + flagged)
added category total flagged m n s h p q =
    let tk = total_key category in
    let fk = flagged_key category in
    let s1 = with_category category s in
    let s2 = insert tk (number (m + total)) s1 in
    let tk1 : lookup tk s1 ≡ lookup tk s = unset_total category s in
    let fk1 : lookup fk s1 ≡ lookup fk s = unset_flagged category s in
    let fk2 : lookup fk s2 ≡ lookup fk s1 =
      lookup-insert_ne tk fk (number (m + total)) s1 (total_ne_flagged category) in
    let same =
      written category total flagged m n s h (ap as_int tk1 ∙ p) (ap as_int (fk2 ∙ fk1) ∙ q) in
    elim (Bool-cases (flagged == 0)) [
      | inl f ↦
          let none_more : n ≡ n + flagged = ground (arith, f) in
          (
            ap (λ x. count_of (lookup tk x)) (rw f at same)
                ∙ ap count_of (lookup-insert_self tk (number (m + total)) s1),
            ap (λ x. count_of (lookup fk x)) (rw f at same)
                ∙ (ap count_of (fk2 ∙ fk1) ∙ (ap count_or_zero q ∙ none_more)),
          )
      | inr f ↦ (
        ap (λ x. count_of (lookup tk x)) (rw f at same)
            ∙ (ap count_of (
                  lookup-insert_ne fk tk (number (n + flagged)) s2
                    (λ e. total_ne_flagged category (sym e)))
                ∙ ap count_of (lookup-insert_self tk (number (m + total)) s1)),
        ap (λ x. count_of (lookup fk x)) (rw f at same)
            ∙ ap count_of (lookup-insert_self fk (number (n + flagged)) s2),
      )
    ]

-- One recording adds its numbers to the counters of its category, which stay counters; one of
-- nothing checked adds nothing, whatever it flags.
pub record_checks-adds :
    (category : Text) (total flagged : ℕ) (s : Store)
    → IsCounter (lookup (total_key category) s)
    → IsCounter (lookup (flagged_key category) s)
    → ((read_category (record_checks category total flagged s) category).total
        ≡ (read_category s category).total + total)
      × ((read_category (record_checks category total flagged s) category).flagged
          ≡ (read_category s category).flagged + (if total == 0 then 0 else flagged))
unfolding read_category
record_checks-adds category total flagged s a b =
    let (m, p) = counter_value (lookup (total_key category) s) a in
    let (n, q) = counter_value (lookup (flagged_key category) s) b in
    let m_now : count_of (lookup (total_key category) s) ≡ m = ap count_or_zero p in
    let n_now : count_of (lookup (flagged_key category) s) ≡ n = ap count_or_zero q in
    elim (Bool-cases (total == 0)) [
      | inl h ↦
          let same : record_checks category total flagged s ≡ s =
            nothing_checked category total flagged s h in
          let nothing : total ≡ 0 = beq→eq total 0 h in
          rw (same, h, nothing) (omega arith, omega arith)
      | inr h ↦ let (t, f) = added category total flagged m n s h p q in rw (h, m_now, n_now) (t, f)
    ]
