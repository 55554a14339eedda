-- ===== src/Postgres/Rows.antt =====
-- internal/storepg: what the statements on the tables of events share: the row that a WHERE finds, an
-- UPDATE of the rows that it matches, claim tokens, leases, and boundedError of inbound.go.
pub mod Updates
pub mod Keys
pub mod Totals
use payrouter.Prelude.{
  ℕ, zero, suc, String, Bool, true, false, Option, none, some, List, [], ◌∷◌, map, ltb, ◌==◌,
  if◌then◌else◌, ◌≡◌, ◌⊎◌, refl, sym, ap, ◌∙◌, subst, inl, inr, In, Bool-cases, then-eq, else-eq,
}
use Prim.Native.String
use payrouter.GoLib.Strings.{trim_space}

unfoldable pub has_token : String → Option String → Bool
has_token token none = false
has_token token (some held) = held == token

unfoldable pub expired : ℕ → Option ℕ → Bool
expired now none = false
expired now (some until) = ltb until now

cut_at : ℕ → String → String
cut_at zero s = ""
cut_at (suc n) String.[] = ""
cut_at (suc n) (String.◌∷◌ c s) = String.◌∷◌ c (cut_at n s)

unfoldable pub bounded_error : String → String
unfolding cut_at
bounded_error message = cut_at 2048 (trim_space message)

module _ {A : Type 0} where
  unfoldable pub find_first : (A → Bool) → List A → Option A
  find_first p [] = none
  find_first p (x ∷ xs) = let later = find_first p xs in if p x then some x else later

  unfoldable pub update_where : (A → Bool) → (A → A) → List A → List A
  update_where p f xs = map (λ x. if p x then f x else x) xs

  unfoldable pub sooner : (A → A → Bool) → Option A → A → A
  sooner before none row = row
  sooner before (some other) row = if before other row then other else row

  -- `WHERE due ORDER BY before LIMIT 1`
  unfoldable pub first_due : (A → A → Bool) → (A → Bool) → List A → Option A
  unfolding sooner
  first_due before due [] = none
  first_due before due (row ∷ rows) =
      let later = first_due before due rows in
      if due row then some (sooner before later row) else later
