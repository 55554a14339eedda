-- ===== src/Postgres/Rows/Totals.antt =====
-- internal/storepg: the sum of a quantity over the rows of a table, and an UPDATE of the row of a key.
use payrouter.Prelude.{
  ℕ, ◌+◌, String, Bool, true, false, some, List, [], ◌∷◌, ◌==◌, if◌then◌else◌, ◌≡◌, sym, ap, ◌∙◌,
  inl, inr, Bool-cases, then-eq, else-eq, arith, eq_iff,
}
use payrouter.Postgres.Rows.{find_first, update_where}
use payrouter.Postgres.Rows.Updates.{update-none}
use payrouter.Postgres.Rows.Keys.{Keyed, find_key, unmatched}

abbrev pub total : {A : Type 0} → (A → ℕ) → List A → ℕ
total w [] = 0
total w (row ∷ rows) = w row + total w rows

module _ {A : Type 0} (key : A → String) (w : A → ℕ) (p : A → Bool) (f : A → A) where
  -- What an UPDATE that matches only rows under one key does to the sum.
  pub total-update :
      (rows : List A) (row : A)
      → Keyed key rows
      → ((x : A) → p x ≡ true → key x ≡ key row)
      → find_key key (key row) rows ≡ some row
      → p row ≡ true
      → total w (update_where p f rows) + w row ≡ total w rows + w (f row)
  unfolding find_first update_where
  total-update [] row keyed under found hit = absurd (ground arith)
  total-update (x ∷ rows) row keyed under found hit = elim (Bool-cases (key x == key row)) [
    | inl q ↦
        let same : x ≡ row = ground (arith, sym (then-eq _ _ q) ∙ found) in
        let i : key x ≡ key row = (eq_iff (key x) (key row)).0 q in
        let rest : update_where p f rows ≡ rows = update-none p f rows (
          unmatched key p rows row keyed.1 under
            (ap (λ k. find_key key k rows) (sym i) ∙ keyed.0)) in
        let head : (if p x then f x else x) ≡ f row = then-eq _ _ (ap p same ∙ hit) ∙ ap f same in
        omega (arith, ap w head, ap (total w) rest, ap w same)
    | inr q ↦
        let missed : p x ≡ false = ground (arith, under x, eq_iff (key x) (key row)) in
        let tail = total-update rows row keyed.1 under (sym (else-eq _ _ q) ∙ found) hit in
        let head : (if p x then f x else x) ≡ x = else-eq _ _ missed in
        omega (arith, ap w head, tail)
  ]
