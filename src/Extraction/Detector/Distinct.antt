-- ===== src/Extraction/Detector/Distinct.antt =====
-- The ids of the clauses of one contract.
use contract_agent_capstone.Prelude.{
  ℕ, zero, suc, ◌≤◌, ◌≡◌, ◌≢◌, refl, sym, ap, ◌∙◌, inl, inr, Bool, false, Option, none, some, List,
  [], ◌∷◌, ◌++◌, arith, append_cancel_left, append_cancel_right, All-map, append_assoc, All,
  Bool-cases, ◌==◌, beq→eq, nat_eq,
}
use contract_agent_capstone.Prelude.Text.{Text, codes, text_eq, last_char, last_char-append}
use contract_agent_capstone.Prelude.Dict.{Dict, lookup, insert, lookup-insert, lookup-insert_self}
use contract_agent_capstone.Exec.{Result-cases}
use contract_agent_capstone.Analysis.{Clause, get_or}
use contract_agent_capstone.Extraction.Taxonomy.{value}
use contract_agent_capstone.Extraction.Service.{
  ExtractedClause, ExtractionServices, extract_clauses,
}
use contract_agent_capstone.Extraction.Detector.{
  decimal, offset_text, base_id, make_clause_id, detected, identify, clause_detector_run,
}
use contract_agent_capstone.Extraction.Detector.Numerals.{
  decimal_injective, decimal-AllDigits, before_digits, before_digits-append,
}

-- An id up to its last character that is no digit.
abbrev stem : Text → Text
stem s = get_or [] (before_digits s)

dup_stem :
    (b : Text) (n : ℕ) → before_digits (b ++ (codes "_dup" ++ decimal n)) ≡ some (b ++ codes "_dup")
dup_stem b n =
    let left : b ++ (codes "_dup" ++ decimal n) ≡ (b ++ codes "_du") ++ (b'p' ∷ decimal n) =
      sym (append_assoc b (codes "_du") (b'p' ∷ decimal n)) in
    let right : (b ++ codes "_du") ++ (b'p' ∷ []) ≡ b ++ codes "_dup" =
      append_assoc b (codes "_du") (b'p' ∷ []) in
    let found =
      before_digits-append (b ++ codes "_du") b'p' (decimal n) refl (decimal-AllDigits (suc n) n) in
    ap before_digits left ∙ (found ∙ ap some right)

-- A plain id ends, but for its digits, in an underscore or a minus sign.
plain_stem :
    (front : Text) (span : Option (ℕ × ℕ))
    → last_char (stem (front ++ (codes "_" ++ offset_text span))) ≢ b'p'
plain_stem front none h =
    let split : front ++ (codes "_" ++ codes "-1") ≡ (front ++ codes "_") ++ codes "-1" =
      sym (append_assoc front (codes "_") (codes "-1")) in
    let found = before_digits-append (front ++ codes "_") b'-' (codes "1") refl (refl, tt) in
    let ends = last_char-append (front ++ codes "_") b'-' [] in
    let same : b'-' ≡ b'p' =
      sym ends ∙ (sym (ap (λ s. last_char (get_or [] s)) (ap before_digits split ∙ found)) ∙ h) in
    omega (arith, same)
plain_stem front (some (start, end)) h =
    let found =
      before_digits-append front b'_' (decimal start) refl (decimal-AllDigits (suc start) start) in
    let same : b'_' ≡ b'p' =
      sym (last_char-append front b'_' []) ∙ (sym (ap (λ s. last_char (get_or [] s)) found) ∙ h) in
    omega (arith, same)

plain_ne_dup :
    (front b : Text) (span : Option (ℕ × ℕ)) (n : ℕ)
    → front ++ (codes "_" ++ offset_text span) ≢ b ++ (codes "_dup" ++ decimal n)
plain_ne_dup front b span n h = plain_stem front span (
    ap (λ s. last_char (stem s)) h
    ∙ (ap (λ s. last_char (get_or [] s)) (dup_stem b n) ∙ last_char-append b b'_' (codes "dup")))

-- Ids are equal only for equal plain ids and equal numbers.
id_injective :
    (contract_id : Option Text) (t u : Text) (p q : Option (ℕ × ℕ)) (m n : ℕ)
    → make_clause_id contract_id t p m ≡ make_clause_id contract_id u q n
    → (base_id contract_id t p ≡ base_id contract_id u q) × (m ≡ n)
unfolding make_clause_id
id_injective contract_id t u p q zero zero h = (h, refl)
id_injective contract_id t u p q zero (suc n) h =
    absurd (plain_ne_dup _ (base_id contract_id u q) p (suc n) h)
id_injective contract_id t u p q (suc m) zero h =
    absurd (plain_ne_dup _ (base_id contract_id t p) q (suc m) (sym h))
id_injective contract_id t u p q (suc m) (suc n) h =
    let a = base_id contract_id t p in
    let b = base_id contract_id u q in
    let stems : some (a ++ codes "_dup") ≡ some (b ++ codes "_dup") =
      sym (dup_stem a (suc m)) ∙ (ap before_digits h ∙ dup_stem b (suc n)) in
    let same : a ≡ b = append_cancel_right a b (codes "_dup") (ap (get_or []) stems) in
    let tails : codes "_dup" ++ decimal (suc m) ≡ codes "_dup" ++ decimal (suc n) =
      append_cancel_left b (codes "_dup" ++ decimal (suc m)) (codes "_dup" ++ decimal (suc n))
        (rw same at h) in
    (
      same,
      decimal_injective (suc m) (suc n)
          (append_cancel_left (codes "_dup") (decimal (suc m)) (decimal (suc n)) tails),
    )

-- No two clauses have one id.
abbrev pub HaveDistinctIds : List Clause → Type 0
HaveDistinctIds [] = Unit
HaveDistinctIds (c ∷ cs) = All (λ d. c.clause_id ≢ d.clause_id) cs × HaveDistinctIds cs

module _ (contract_id : Option Text) where
  abbrev plain : ExtractedClause → Text
  plain e = base_id contract_id (value e.clause_type) e.span

  -- An id made for a plain id that was seen no more often than its number says.
  abbrev IsLater : Dict Text ℕ → Clause → Type 0
  IsLater seen c =
      (e : ExtractedClause) × (d : ℕ) × (c.clause_id
        ≡ make_clause_id contract_id (value e.clause_type) e.span d)
      × (get_or 0 (lookup (plain e) seen) ≤ d)

  seen_more :
      (seen : Dict Text ℕ) (k j : Text)
      → get_or 0 (lookup j seen)
        ≤ get_or 0 (lookup j (insert k (suc (get_or 0 (lookup k seen))) seen))
  seen_more seen k j =
      let value = suc (get_or 0 (lookup k seen)) in
      elim (Bool-cases (k == j)) [
        | inl h ↦ rw (lookup-insert k j value seen, h, beq→eq k j h) (omega arith)
        | inr h ↦ rw (lookup-insert k j value seen, h) (omega arith)
      ]

  still-IsLater :
      (seen : Dict Text ℕ) (k : Text) (c : Clause)
      → IsLater (insert k (suc (get_or 0 (lookup k seen))) seen) c
      → IsLater seen c
  still-IsLater seen k c (e, d, same, bound) =
      (e, d, same, omega (arith, seen_more seen k (plain e), bound))

  identify-IsLater :
      (seen : Dict Text ℕ) (es : List ExtractedClause)
      → All (IsLater seen) (identify contract_id seen es)
  unfolding identify make_clause_id
  identify-IsLater seen [] = tt
  identify-IsLater seen (e ∷ es) = (
    (e, get_or 0 (lookup (plain e) seen), refl, omega arith),
    All-map (still-IsLater seen (plain e)) _
        (identify-IsLater (insert (plain e) (suc (get_or 0 (lookup (plain e) seen))) seen) es),
  )

  later_ne :
      (seen : Dict Text ℕ) (e : ExtractedClause) (n : ℕ) (c : Clause)
      → IsLater (insert (plain e) (suc n) seen) c
      → (detected contract_id e n).clause_id ≢ c.clause_id
  later_ne seen e n c (f, d, same, bound) h =
      let (one_plain, one_number) =
        id_injective contract_id (value e.clause_type) (value f.clause_type) e.span f.span n d
          (h ∙ same) in
      let self = lookup-insert_self (plain e) (suc n) seen in
      let seen_again : get_or 0 (lookup (plain f) (insert (plain e) (suc n) seen)) ≡ suc n =
        rw (sym one_plain) (ap (get_or 0) self) in
      omega (arith, bound, seen_again, one_number)

  identify-HaveDistinctIds :
      (seen : Dict Text ℕ) (es : List ExtractedClause)
      → HaveDistinctIds (identify contract_id seen es)
  unfolding identify make_clause_id
  identify-HaveDistinctIds seen [] = tt
  identify-HaveDistinctIds seen (e ∷ es) =
      let n = get_or 0 (lookup (plain e) seen) in
      let seen' = insert (plain e) (suc n) seen in
      (All-map (later_ne seen e n) _ (identify-IsLater seen' es), identify-HaveDistinctIds seen' es)

-- Whatever the model extracts and the cache holds, no two clauses of one run have the same id.
pub clause_detector_run-HaveDistinctIds :
    {W : Type 0} (S : ExtractionServices W) (record_extraction : ℕ → ℕ → W → W)
    (contract_text : Text) (contract_id : Option Text) (enable_fallback : Bool) (w : W)
    → HaveDistinctIds
        (clause_detector_run S record_extraction contract_text contract_id enable_fallback w).0
unfolding clause_detector_run
clause_detector_run-HaveDistinctIds S record_extraction text contract_id enable_fallback w =
    let run = clause_detector_run S record_extraction text contract_id enable_fallback w in
    elim (Result-cases (extract_clauses S text none false enable_fallback w).0) [
      | inl (es, h) ↦
          let same : run.0 ≡ identify contract_id [] es = ground (arith, h) in
          rw same (identify-HaveDistinctIds contract_id [] es)
      | inr (e, h) ↦ let same : run.0 ≡ [] = ground (arith, h) in rw same tt
    ]
