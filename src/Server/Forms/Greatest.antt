-- ===== src/Server/Forms/Greatest.antt =====
-- internal/server/paymentintent.go: the greatest index that collectPaymentMethodTypes collects.
use payrouter.Prelude.{
  ℕ, String, Dict, true, false, Option, none, some, List, [], ◌∷◌, In, if◌then◌else◌, ◌⊎◌, ◌≡◌,
  refl, sym, ap, subst, ◌∙◌, inl, inr, arith, Bool-cases, Option-cases,
}
use payrouter.GoLib.Int64.{ℤ, pos, negsuc, ltb_ℤ}
use payrouter.Server.Forms.{inner_key, read_index, collect_indexed}

abbrev index_in : Option String → Option ℤ
index_in none = none
index_in (some inner) = read_index inner

-- The index in the name of a field, if it is one of `payment_method_types[…]`.
abbrev pub index_of_field : String → Option ℤ
index_of_field k = index_in (inner_key 21 "payment_method_types[" k)

-- A field of the form that has a value carries the index.
abbrev pub Names : ℕ → Dict (List String) → Type 0
Names n form =
    (k : String) × (v : String) × (vs : List String) × In (k, v ∷ vs) form
    × (index_of_field k ≡ some (pos n))

abbrev Collected : Type 0
Collected = List (ℤ × String) × ℤ

-- The second part is no less than any index that is named, and is one of them, or -1.
abbrev Greatest : Dict (List String) → Collected → Type 0
Greatest form r =
    ((j : ℕ) → Names j form → ltb_ℤ r.1 (pos j) ≡ false)
    × ((r.1 ≡ negsuc 0)
        ⊎ ((m : ℕ) × (field : ℤ × String) × (rest : List (ℤ × String)) × (r ≡ (field ∷ rest, pos m))
            × Names m form))

Names-cons :
    (k : String) (vs : List String) (form : Dict (List String)) (j : ℕ)
    → Names j form
    → Names j ((k, vs) ∷ form)
Names-cons k vs form j (k', v, vs', m, e) = (k', v, vs', inr m, e)

-- A field that carries no index, or no value.
skip-Greatest :
    (k : String) (vs : List String) (form : Dict (List String))
    → ((j : ℕ) → Names j ((k, vs) ∷ form) → Names j form)
    → Greatest form (collect_indexed form)
    → Greatest ((k, vs) ∷ form) (collect_indexed form)
skip-Greatest k vs form skipped (upper, inl e) = (λ j n. upper j (skipped j n), inl e)
skip-Greatest k vs form skipped (upper, inr (m, field, rest, e, names)) =
    (λ j n. upper j (skipped j n), inr (m, field, rest, e, Names-cons k vs form m names))

above :
    (mx n : ℤ)
    → (mx ≡ negsuc 0) ⊎ ((m : ℕ) × (mx ≡ pos m))
    → ltb_ℤ mx n ≡ true
    → (i : ℕ) × (n ≡ pos i)
above mx (pos i) low h = (i, refl)
above mx (negsuc i) (inl e) h = absurd (ground (arith, ap (λ x. ltb_ℤ x (negsuc i)) (sym e) ∙ h))
above mx (negsuc i) (inr (m, e)) h =
    absurd (ground (arith, ap (λ x. ltb_ℤ x (negsuc i)) (sym e) ∙ h))

not_above :
    (mx n : ℤ) (j : ℕ) → ltb_ℤ mx n ≡ true → ltb_ℤ mx (pos j) ≡ false → ltb_ℤ n (pos j) ≡ false
not_above mx n j h k = ground arith

irreflexive : (n : ℤ) (j : ℕ) → n ≡ pos j → ltb_ℤ n (pos j) ≡ false
irreflexive n j e = ap (λ x. ltb_ℤ x (pos j)) e ∙ ground arith

named_head :
    (k k' v' : String) (vs vs' : List String) (form : Dict (List String)) (j : ℕ) (n : ℤ)
    → index_of_field k ≡ some n
    → In (k', v' ∷ vs') ((k, vs) ∷ form)
    → index_of_field k' ≡ some (pos j)
    → (n ≡ pos j) ⊎ Names j form
named_head k k' v' vs vs' form j n at (inl e) i =
    let same : k ≡ k' = ap (λ (x : String × List String). x.0) e in
    inl (ground (arith, sym at ∙ ap index_of_field same ∙ i))
named_head k k' v' vs vs' form j n at (inr m) i = inr (k', v', vs', m, i)

low_of :
    (form : Dict (List String)) (r : Collected)
    → Greatest form r
    → (r.1 ≡ negsuc 0) ⊎ ((m : ℕ) × (r.1 ≡ pos m))
low_of form r (upper, inl e) = inl e
low_of form r (upper, inr (m, field, rest, e, names)) = inr (m, ap (λ (x : Collected). x.1) e)

-- What a field with an index and a value adds.
abbrev added : ℤ → String → Collected → Collected
added n v r = ((n, v) ∷ r.0, (if ltb_ℤ r.1 n then n else r.1))

take-Greatest :
    (k v : String) (vs : List String) (form : Dict (List String)) (n : ℤ) (r : Collected)
    → index_of_field k ≡ some n
    → Greatest form r
    → Greatest ((k, v ∷ vs) ∷ form) (added n v r)
take-Greatest k v vs form n (ix, mx) at (upper, low) = elim (Bool-cases (ltb_ℤ mx n)) [
  | inl q ↦
      let (i, e) = above mx n (low_of form (ix, mx) (upper, low)) q in
      let here : Names i ((k, v ∷ vs) ∷ form) = (k, v, vs, inl refl, at ∙ ap (λ x. some x) e) in
      rw q (
        λ j (k', v', vs', m, a). elim (named_head k k' v' (v ∷ vs) vs' form j n at m a) [
          | inl same ↦ irreflexive n j same
          | inr names ↦ not_above mx n j q (upper j names)
        ],
        inr (i, (n, v), ix, ap (λ (x : ℤ). ((n, v) ∷ ix, x)) e, here),
      )
  | inr q ↦ rw q (
    λ j (k', v', vs', m, a). elim (named_head k k' v' (v ∷ vs) vs' form j n at m a) [
      | inl same ↦ subst (λ x. ltb_ℤ mx x ≡ false) same q
      | inr names ↦ upper j names
    ],
    elim low [
      | inl e ↦ inl e
      | inr (m, field, rest, e, names) ↦ inr (
        m,
        (n, v),
        ix,
        ap (λ (x : Collected). ((n, v) ∷ ix, x.1)) e,
        Names-cons k (v ∷ vs) form m names,
      )
    ],
  )
]

unnamed :
    (k : String) (vs : List String) (form : Dict (List String))
    → index_of_field k ≡ none
    → (j : ℕ) → Names j ((k, vs) ∷ form)
    → Names j form
unnamed k vs form missing j (k', v, vs', inl e, i) =
    let same : k ≡ k' = ap (λ (x : String × List String). x.0) e in
    absurd (ground (arith, sym missing ∙ ap index_of_field same ∙ i))
unnamed k vs form missing j (k', v, vs', inr m, i) = (k', v, vs', m, i)

no_value :
    (k : String) (form : Dict (List String)) (j : ℕ) → Names j ((k, []) ∷ form) → Names j form
no_value k form j (k', v, vs', inl e, i) =
    absurd (ground (arith, ap (λ (x : String × List String). x.1) e))
no_value k form j (k', v, vs', inr m, i) = (k', v, vs', m, i)

pub collect_indexed-Greatest : (form : Dict (List String)) → Greatest form (collect_indexed form)
unfolding collect_indexed
collect_indexed-Greatest [] = (λ j (k, v, vs, m, e). absurd m, inl refl)
collect_indexed-Greatest ((k, []) ∷ form) =
    let same = skip-Greatest k [] form (no_value k form) (collect_indexed-Greatest form) in
    elim (Option-cases (inner_key 21 "payment_method_types[" k)) [
      | inl e ↦ rw (e, collect_indexed) same
      | inr (inner, e) ↦ elim (Option-cases (read_index inner)) [
        | inl f ↦ rw (e, collect_indexed) (rw f same)
        | inr (n, f) ↦ rw (e, collect_indexed) (rw f same)
      ]
    ]
collect_indexed-Greatest ((k, v ∷ more) ∷ form) =
    let ih = collect_indexed-Greatest form in
    elim (Option-cases (inner_key 21 "payment_method_types[" k)) [
      | inl e ↦
          rw (e, collect_indexed)
            (skip-Greatest k (v ∷ more) form (unnamed k (v ∷ more) form (ap index_in e)) ih)
      | inr (inner, e) ↦ elim (Option-cases (read_index inner)) [
        | inl f ↦
            rw (e, collect_indexed)
              (rw f (
                skip-Greatest k (v ∷ more) form (unnamed k (v ∷ more) form (ap index_in e ∙ f)) ih))
        | inr (n, f) ↦
            rw (e, collect_indexed)
              (rw f (take-Greatest k v more form n (collect_indexed form) (ap index_in e ∙ f) ih))
      ]
    ]
