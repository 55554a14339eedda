-- ===== src/Postgres/Rows/Updates.antt =====
-- internal/storepg: what an UPDATE touches, whatever the key of the rows.
use payrouter.Prelude.{
  suc, subst, ◌≤◌, if◌then◌else◌, Bool, true, false, Option, none, some, List, [], ◌∷◌, length,
  select, ◌≡◌, ◌⊎◌, refl, sym, ap, ◌∙◌, inl, inr, Bool-cases, then-eq, else-eq, arith,
}
use payrouter.Postgres.Rows.{find_first, update_where, sooner, first_due}

-- An UPDATE that matches nothing.
module _ {A : Type 0} where
  pub select-none :
      (p : A → Bool) (rows : List A) → find_first p rows ≡ none → length (select p rows) ≡ 0
  unfolding find_first
  select-none p [] e = refl
  select-none p (x ∷ rows) e = elim (Bool-cases (p x)) [
    | inl q ↦ absurd (ground (arith, sym (then-eq _ _ q) ∙ e))
    | inr q ↦ ap length (else-eq _ _ q) ∙ select-none p rows (sym (else-eq _ _ q) ∙ e)
  ]

  pub update-none :
      (p : A → Bool) (f : A → A) (rows : List A)
      → find_first p rows ≡ none
      → update_where p f rows ≡ rows
  unfolding find_first update_where
  update-none p f [] e = refl
  update-none p f (x ∷ rows) e = elim (Bool-cases (p x)) [
    | inl q ↦ absurd (ground (arith, sym (then-eq _ _ q) ∙ e))
    | inr q ↦
        ap (λ y. y ∷ update_where p f rows) (else-eq _ _ q)
        ∙ ap (λ ys. x ∷ ys) (update-none p f rows (sym (else-eq _ _ q) ∙ e))
  ]

module _ {A : Type 0} where
  pub sooner-eq :
      (before : A → A → Bool) (later : Option A) (row : A)
      → (sooner before later row ≡ row) ⊎ (later ≡ some (sooner before later row))
  unfolding sooner
  sooner-eq before none row = inl refl
  sooner-eq before (some other) row = ground arith

module _ {A : Type 0} where
  pub select-due :
      (before : A → A → Bool) (due : A → Bool) (rows : List A)
      → first_due before due rows ≡ none
      → length (select due rows) ≡ 0
  unfolding first_due
  select-due before due [] e = refl
  select-due before due (x ∷ rows) e = elim (Bool-cases (due x)) [
    | inl q ↦ absurd (ground (arith, sym (then-eq _ _ q) ∙ e))
    | inr q ↦ ap length (else-eq _ _ q) ∙ select-due before due rows (sym (else-eq _ _ q) ∙ e)
  ]

-- An UPDATE that keeps a test of its rows.
module _ {A : Type 0} (q p : A → Bool) (f : A → A) (kept : (x : A) → q (f x) ≡ q x) where
  pub find_first-update :
      (rows : List A) (row : A)
      → find_first q rows ≡ some row
      → find_first q (update_where p f rows) ≡ some (if p row then f row else row)
  unfolding find_first update_where
  find_first-update [] row found = absurd (ground arith)
  find_first-update (x ∷ rows) row found = ground (arith, find_first-update rows row, kept x, found)

  pub find_first-update_none :
      (rows : List A) → find_first q rows ≡ none → find_first q (update_where p f rows) ≡ none
  unfolding find_first update_where
  find_first-update_none [] missing = refl
  find_first-update_none (x ∷ rows) missing =
      ground (arith, find_first-update_none rows, kept x, missing)

  pub select-update :
      (rows : List A) → length (select q (update_where p f rows)) ≡ length (select q rows)
  unfolding update_where
  select-update [] = refl
  select-update (x ∷ rows) = elim (Bool-cases (p x)) [
    | inl u ↦ rw u (ground (arith, select-update rows, kept x))
    | inr u ↦ rw u (ground (arith, select-update rows))
  ]

-- The rows that a test finds.
module _ {A : Type 0} (p : A → Bool) where
  pub select-found :
      (rows : List A) (row : A) → find_first p rows ≡ some row → 1 ≤ length (select p rows)
  unfolding find_first
  select-found [] row found = absurd (ground arith)
  select-found (x ∷ rows) row found = ground (arith, select-found rows row, found)

  pub find_first-met : (rows : List A) (row : A) → find_first p rows ≡ some row → p row ≡ true
  unfolding find_first
  find_first-met [] row found = absurd (ground arith)
  find_first-met (x ∷ rows) row found = elim (Bool-cases (p x)) [
    | inl u ↦
        let same : x ≡ row = ground (arith, sym (then-eq _ _ u) ∙ found) in ap p (sym same) ∙ u
    | inr u ↦ find_first-met rows row (sym (else-eq _ _ u) ∙ found)
  ]

-- Two tests of one table.
module _ {A : Type 0} (p q : A → Bool) where
  pub select-fewer :
      (rows : List A)
      → ((x : A) → p x ≡ true → q x ≡ true)
      → length (select p rows) ≤ length (select q rows)
  select-fewer [] within = omega arith
  select-fewer (x ∷ rows) within = ground (arith, select-fewer rows within, within x)

  -- A row that one test finds, while the other finds none.
  pub passed-over :
      (rows : List A) (row : A)
      → find_first p rows ≡ none
      → find_first q rows ≡ some row
      → p row ≡ false
  unfolding find_first
  passed-over [] row e found = absurd (ground arith)
  passed-over (x ∷ rows) row e found = elim (Bool-cases (p x)) [
    | inl u ↦ absurd (ground (arith, sym (then-eq _ _ u) ∙ e))
    | inr u ↦ elim (Bool-cases (q x)) [
      | inl v ↦
          let same : x ≡ row = ground (arith, sym (then-eq _ _ v) ∙ found) in ap p (sym same) ∙ u
      | inr v ↦ passed-over rows row (sym (else-eq _ _ u) ∙ e) (sym (else-eq _ _ v) ∙ found)
    ]
  ]

  -- If one row passes the wide test, and it fails the narrow one, no row passes the narrow one.
  pub select-other :
      (rows : List A) (row : A)
      → ((x : A) → p x ≡ true → q x ≡ true)
      → find_first q rows ≡ some row
      → p row ≡ false
      → length (select q rows) ≤ 1
      → length (select p rows) ≡ 0
  unfolding find_first
  select-other [] row within found miss one = refl
  select-other (x ∷ rows) row within found miss one = elim (Bool-cases (q x)) [
    | inl v ↦
        let same : x ≡ row = ground (arith, sym (then-eq _ _ v) ∙ found) in
        let left : suc (length (select q rows)) ≤ 1 =
          subst (λ n. n ≤ 1) (ap length (then-eq _ _ v)) one in
        ap length (else-eq _ _ (ap p same ∙ miss)) ∙ omega (arith, left, select-fewer rows within)
    | inr v ↦
        let out : p x ≡ false = ground (arith, within x) in
        ap length (else-eq _ _ out)
        ∙ select-other rows row within (sym (else-eq _ _ v) ∙ found) miss
            (subst (λ n. n ≤ 1) (ap length (else-eq _ _ v)) one)
  ]
