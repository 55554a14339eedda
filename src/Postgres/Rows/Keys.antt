-- ===== src/Postgres/Rows/Keys.antt =====
-- internal/storepg: rows under a primary key, and how an UPDATE and a query of the first due row
-- treat the row of a key.
use payrouter.Prelude.{
  String, suc, Bool, true, false, Option, none, some, List, [], ◌∷◌, length, select, ◌==◌,
  if◌then◌else◌, ◌≡◌, sym, ap, ◌∙◌, inl, inr, Bool-cases, Option-cases, then-eq, else-eq, arith,
  eq_iff,
}
use payrouter.Postgres.Rows.Updates
use payrouter.Postgres.Rows.Updates.{passed-over, sooner-eq, select-none}
use payrouter.Postgres.Rows.{find_first, update_where, sooner, first_due}

module _ {A : Type 0} (key : A → String) where
  abbrev pub find_key : String → List A → Option A
  find_key id rows = find_first (λ row. key row == id) rows

  -- No key stands twice.
  abbrev pub Keyed : List A → Type 0
  Keyed [] = Unit
  Keyed (row ∷ rows) = (find_key (key row) rows ≡ none) × Keyed rows

  pub find_first-update :
      (p : A → Bool) (f : A → A) (id : String) (rows : List A) (row : A)
      → ((x : A) → key (f x) ≡ key x)
      → find_key id rows ≡ some row
      → find_key id (update_where p f rows) ≡ some (if p row then f row else row)
  unfolding find_first update_where
  find_first-update p f id rows row same found =
      Updates.find_first-update (λ x. key x == id) p f (λ x. ap (λ k. k == id) (same x)) rows row
        found

  pub find_first-update_none :
      (p : A → Bool) (f : A → A) (id : String) (rows : List A)
      → ((x : A) → key (f x) ≡ key x)
      → find_key id rows ≡ none
      → find_key id (update_where p f rows) ≡ none
  unfolding find_first update_where
  find_first-update_none p f id rows same missing =
      Updates.find_first-update_none (λ x. key x == id) p f (λ x. ap (λ k. k == id) (same x)) rows
        missing

  pub Keyed-update :
      (p : A → Bool) (f : A → A) (rows : List A)
      → ((x : A) → key (f x) ≡ key x)
      → Keyed rows
      → Keyed (update_where p f rows)
  unfolding update_where
  Keyed-update p f [] same h = tt
  Keyed-update p f (x ∷ rows) same h = elim (Bool-cases (p x)) [
    | inl e ↦ rw e (
      ap (λ id. find_key id (update_where p f rows)) (same x)
          ∙ find_first-update_none p f (key x) rows same h.0,
      Keyed-update p f rows same h.1,
    )
    | inr e ↦
        rw e (find_first-update_none p f (key x) rows same h.0, Keyed-update p f rows same h.1)
  ]

  tail-key :
      (x : A) (rows : List A) (row : A)
      → Keyed (x ∷ rows)
      → find_key (key row) rows ≡ some row
      → find_key (key row) (x ∷ rows) ≡ some row
  unfolding find_first
  tail-key x rows row h found = elim (Bool-cases (key x == key row)) [
    | inl e ↦
        absurd (ground (arith, sym h.0 ∙ ap (λ id. find_key id rows) ((eq_iff _ _).0 e) ∙ found))
    | inr e ↦ else-eq _ _ e ∙ found
  ]

  head-key : (x : A) (rows : List A) (row : A) → x ≡ row → find_key (key row) (x ∷ rows) ≡ some row
  unfolding find_first
  head-key x rows row same =
      then-eq {b = key x == key row} _ _ ((eq_iff (key x) (key row)).1 (ap key same)) ∙ ap some same

  keep-tail :
      (x : A) (rows : List A) (row : A) (Q : Type 0)
      → Keyed (x ∷ rows)
      → (find_key (key row) rows ≡ some row) × Q
      → (find_key (key row) (x ∷ rows) ≡ some row) × Q
  keep-tail x rows row Q h found = (tail-key x rows row h found.0, found.1)

  -- The row that is due stands under its key.
  pub first_due-found :
      (before : A → A → Bool) (due : A → Bool) (rows : List A) (row : A)
      → Keyed rows
      → first_due before due rows ≡ some row
      → (find_key (key row) rows ≡ some row) × (due row ≡ true)
  unfolding first_due find_first
  first_due-found before due [] row h e = absurd (ground arith)
  first_due-found before due (x ∷ rows) row h e =
      let later = λ (e : first_due before due rows ≡ some row).
        keep-tail x rows row (due row ≡ true) h (first_due-found before due rows row h.1 e) in
      elim (Bool-cases (due x)) [
        | inr q ↦ later (sym (else-eq _ _ q) ∙ e)
        | inl q ↦
            let chosen : some (sooner before (first_due before due rows) x) ≡ some row =
              sym (then-eq _ _ q) ∙ e in
            elim (sooner-eq before (first_due before due rows) x) [
              | inr s ↦ later (s ∙ chosen)
              | inl s ↦
                  let same : x ≡ row = ground (arith, ap (λ r. some r) (sym s) ∙ chosen) in
                  (head-key x rows row same, ap due (sym same) ∙ q)
            ]
      ]

  -- The row that a WHERE finds stands under its key and matches.
  pub find_first-found :
      (p : A → Bool) (rows : List A) (row : A)
      → Keyed rows
      → find_first p rows ≡ some row
      → (find_key (key row) rows ≡ some row) × (p row ≡ true)
  unfolding find_first
  find_first-found p [] row h e = absurd (ground arith)
  find_first-found p (x ∷ rows) row h e = elim (Bool-cases (p x)) [
    | inr q ↦
        keep-tail x rows row (p row ≡ true) h
          (find_first-found p rows row h.1 (sym (else-eq _ _ q) ∙ e))
    | inl q ↦
        let same : x ≡ row = ground (arith, sym (then-eq _ _ q) ∙ e) in
        (head-key x rows row same, ap p (sym same) ∙ q)
  ]

  pub key-found :
      (id : String) (rows : List A) (row : A) → find_key id rows ≡ some row → key row ≡ id
  unfolding find_first
  key-found id [] row e = absurd (ground arith)
  key-found id (x ∷ rows) row e = elim (Bool-cases (key x == id)) [
    | inr q ↦ key-found id rows row (sym (else-eq _ _ q) ∙ e)
    | inl q ↦
        let same : x ≡ row = ground (arith, sym (then-eq _ _ q) ∙ e) in
        sym (ap key same) ∙ (eq_iff (key x) id).0 q
  ]

  -- Two rows that stand under one key are one row.
  pub find_key_unique :
      (id : String) (rows : List A) (row other : A)
      → find_key id rows ≡ some row
      → find_key (key other) rows ≡ some other
      → key row ≡ key other
      → row ≡ other
  find_key_unique id rows row other found at_key same =
      let i : id ≡ key other = sym (key-found id rows row found) ∙ same in
      let e : some row ≡ some other = sym found ∙ ap (λ k. find_key k rows) i ∙ at_key in
      ground (arith, e)

  pub unmatched :
      (p : A → Bool) (rows : List A) (row : A)
      → Keyed rows
      → ((x : A) → p x ≡ true → key x ≡ key row)
      → find_key (key row) rows ≡ none
      → find_first p rows ≡ none
  unmatched p rows row keyed under missing = elim (Option-cases (find_first p rows)) [
    | inl e ↦ e
    | inr (x, e) ↦
        let (at_key, hit) = find_first-found p rows x keyed e in
        absurd
          (ground (arith, sym missing ∙ ap (λ k. find_key k rows) (sym (under x hit)) ∙ at_key))
  ]

  -- An UPDATE that matches only rows under one key touches one row.
  pub select-one :
      (p : A → Bool) (rows : List A) (row : A)
      → Keyed rows
      → ((x : A) → p x ≡ true → key x ≡ key row)
      → find_key (key row) rows ≡ some row
      → p row ≡ true
      → length (select p rows) ≡ 1
  unfolding find_first
  select-one p [] row keyed under found hit = absurd (ground arith)
  select-one p (x ∷ rows) row keyed under found hit = elim (Bool-cases (key x == key row)) [
    | inl q ↦
        let same : x ≡ row = ground (arith, sym (then-eq _ _ q) ∙ found) in
        let i : key x ≡ key row = (eq_iff (key x) (key row)).0 q in
        ap length (then-eq _ _ (ap p same ∙ hit))
        ∙ ap suc (
            select-none p rows
              (unmatched p rows row keyed.1 under (ap (λ k. find_key k rows) (sym i) ∙ keyed.0)))
    | inr q ↦
        let missed : p x ≡ false = ground (arith, under x, eq_iff (key x) (key row)) in
        ap length (else-eq _ _ missed)
        ∙ select-one p rows row keyed.1 under (sym (else-eq _ _ q) ∙ found) hit
  ]

  -- A WHERE that only rows under one key match finds the row of that key, if it matches.
  pub find_first-at :
      (p : A → Bool) (rows : List A) (row : A)
      → Keyed rows
      → ((x : A) → p x ≡ true → key x ≡ key row)
      → find_key (key row) rows ≡ some row
      → p row ≡ true
      → find_first p rows ≡ some row
  find_first-at p rows row keyed under found hit = elim (Option-cases (find_first p rows)) [
    | inl e ↦ absurd (ground (arith, passed-over p (λ x. key x == key row) rows row e found))
    | inr (x, e) ↦
        let (at_key, met) = find_first-found p rows x keyed e in
        let same : x ≡ row =
          sym (find_key_unique (key row) rows row x found at_key (sym (under x met))) in
        e ∙ ap some same
  ]
