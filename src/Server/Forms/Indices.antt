-- ===== src/Server/Forms/Indices.antt =====
-- internal/server/paymentintent.go: how long the loop of collectPaymentMethodTypes runs.
use payrouter.Prelude.{
  ℕ, zero, suc, ◌+◌, ◌^◌, ◌≤◌, ◌<◌, String, Dict, lookup, Option, none, some, List, [], ◌∷◌, ◌≡◌,
  refl, sym, ap, subst, false, ◌∙◌, inl, inr, then-eq, else-eq, arith, Bool-cases,
}
use payrouter.GoLib.Int64.{ℤ, pos, ltb_ℤ, wrap}
use payrouter.Server.Forms.Greatest.{Names, collect_indexed-Greatest}
use payrouter.Server.Forms.{
  at_index, increment, cons_value, in_order, collect_indexed, from_indexed,
  collect_payment_method_types,
}

increment-pos : (i : ℕ) → i + 1 < 2 ^ 63 → increment (pos i) ≡ pos (i + 1)
unfolding increment wrap
increment-pos i h = ground arith

cons-none : (o : Option String) → cons_value o none ≡ none
unfolding cons_value
cons-none none = refl
cons-none (some v) = refl

step :
    (fuel i n : ℕ) (indexed : List (ℤ × String))
    → i ≤ n
    → i + 1 < 2 ^ 63
    → in_order (suc fuel) (pos i) (pos n) indexed
      ≡ cons_value (at_index (pos i) indexed) (in_order fuel (pos (i + 1)) (pos n) indexed)
unfolding in_order
step fuel i n indexed le small =
    else-eq {b = ltb_ℤ (pos n) (pos i)} _ _ (ground arith)
    ∙ ap (λ j. cons_value (at_index (pos i) indexed) (in_order fuel j (pos n) indexed))
        (increment-pos i small)

out_of_fuel :
    (fuel i n : ℕ) (indexed : List (ℤ × String))
    → n + 1 < 2 ^ 63
    → fuel + i ≤ n + 1
    → in_order fuel (pos i) (pos n) indexed ≡ none
unfolding in_order
out_of_fuel zero i n indexed small le = refl
out_of_fuel (suc fuel) i n indexed small le =
    step fuel i n indexed (omega (arith, le)) (omega (arith, le, small))
    ∙ ap (cons_value (at_index (pos i) indexed))
        (out_of_fuel fuel (i + 1) n indexed small (omega (arith, le)))
    ∙ cons-none (at_index (pos i) indexed)

taken :
    {r : Option (List String)} (o : Option String) (values : List String)
    → r ≡ cons_value o (some values)
    → (vs : List String) × (r ≡ some vs)
unfolding cons_value
taken none values e = (values, e)
taken (some v) values e = (v ∷ values, e)

ends :
    (fuel i n : ℕ) (indexed : List (ℤ × String))
    → n + 1 < 2 ^ 63
    → n + 1 < fuel + i
    → i ≤ n + 1
    → (values : List String) × (in_order fuel (pos i) (pos n) indexed ≡ some values)
unfolding in_order cons_value
ends zero i n indexed small enough le = absurd (omega (arith, enough, le))
ends (suc fuel) i n indexed small enough le = elim (Bool-cases (ltb_ℤ (pos n) (pos i))) [
  | inl q ↦ ([], then-eq _ _ q)
  | inr q ↦
      let within : i ≤ n = ground (arith, q) in
      let (values, rest) =
        ends fuel (i + 1) n indexed small (omega (arith, enough)) (omega (arith, within)) in
      taken (at_index (pos i) indexed) values (
        step fuel i n indexed within (omega (arith, within, small))
        ∙ ap (cons_value (at_index (pos i) indexed)) rest)
]

collected :
    (fuel : ℕ) (form : Dict (List String)) (n : ℕ) (field : ℤ × String)
    (indexed : List (ℤ × String))
    → lookup "payment_method_types[]" form ≡ none
    → collect_indexed form ≡ (field ∷ indexed, pos n)
    → collect_payment_method_types fuel form ≡ in_order fuel (pos 0) (pos n) (field ∷ indexed)
unfolding collect_payment_method_types from_indexed
collected fuel form n field indexed plain fields =
    rw (plain, collect_payment_method_types) (ap (from_indexed fuel) fields)

-- Of the indices that a form names, the greatest one, and the rounds that the loop needs.
abbrev pub Rounds : Dict (List String) → Type 0
Rounds form =
    (m : ℕ) × Names m form
    × ((j : ℕ) → Names j form → j ≤ m)
    × ((fuel : ℕ) → fuel ≤ m + 1 → collect_payment_method_types fuel form ≡ none)
    × ((values : List String) × (collect_payment_method_types (m + 2) form ≡ some values))

no_less : (m j : ℕ) → ltb_ℤ (pos m) (pos j) ≡ false → j ≤ m
no_less m j h = ground (arith, h)

rounds :
    (form : Dict (List String)) (m : ℕ) (field : ℤ × String) (indexed : List (ℤ × String))
    → lookup "payment_method_types[]" form ≡ none
    → collect_indexed form ≡ (field ∷ indexed, pos m)
    → Names m form
    → ((j : ℕ) → Names j form → ltb_ℤ (collect_indexed form).1 (pos j) ≡ false)
    → m + 1 < 2 ^ 63
    → Rounds form
rounds form m field indexed plain fields names upper small =
    let (values, ended) = ends (m + 2) 0 m (field ∷ indexed) small (omega arith) (omega arith) in
    (
      m,
      names,
      λ j named.
          no_less m j (
            subst (λ (r : List (ℤ × String) × ℤ). ltb_ℤ r.1 (pos j) ≡ false) fields
              (upper j named)),
      λ fuel few.
          collected fuel form m field indexed plain fields
          ∙ out_of_fuel fuel 0 m (field ∷ indexed) small (omega (arith, few)),
      (values, collected (m + 2) form m field indexed plain fields ∙ ended),
    )

-- A form without `payment_method_types[]` that names an index from 0 on, by a field
-- `payment_method_types[n]` with a value, and none from 2^63 - 1 on. Let m be the greatest index that it
-- names. The loop of collectPaymentMethodTypes counts through every number up to m, however few fields
-- there are: with m + 1 rounds or fewer it has not ended, with m + 2 it has.
pub collect_payment_method_types-Rounds :
    (n : ℕ) (form : Dict (List String))
    → lookup "payment_method_types[]" form ≡ none
    → Names n form
    → ((j : ℕ) → Names j form → j + 1 < 2 ^ 63)
    → Rounds form
collect_payment_method_types-Rounds n form plain named small =
    let (upper, found) = collect_indexed-Greatest form in
    elim found [
      | inl e ↦ absurd (ground (arith, sym (ap (λ x. ltb_ℤ x (pos n)) e) ∙ upper n named))
      | inr (m, field, indexed, e, names) ↦
          rounds form m field indexed plain e names upper (small m names)
    ]
