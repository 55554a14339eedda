-- ===== src/GoLib/Strings.antt =====
-- package strings: Split, SplitN(s, sep, 2), Join, TrimSpace and ToLower, for an ASCII separator.
use Prim.Native.String.{[], ◌∷◌}
use text.Mathlib.TextEquality.{Char-path}
use Prim.Native.Char.{nul}
use payrouter.Prelude.{
  zero, suc, ◌-◌, ℕ, String, Char, code, Bool, true, not, ◌&&◌, ◌||◌, Option, none, some, List, ◌≡◌,
  refl, arith, ◌∙◌, eqb, leb, is_empty, ◌+++◌, if◌then◌else◌, Bool-cases, inl, inr,
}

-- The character at an index of a table.
abbrev pub nth : String → ℕ → Char
nth [] i = nul
nth (c ∷ s) zero = c
nth (c ∷ s) (suc i) = nth s i

cons_head : Char → List String → List String
cons_head c List.[] = List.◌∷◌ (c ∷ []) List.[]
cons_head c (List.◌∷◌ p ps) = List.◌∷◌ (c ∷ p) ps

-- strings.Split
unfoldable pub split_on : ℕ → String → List String
unfolding cons_head
split_on sep [] = List.◌∷◌ [] List.[]
split_on sep (c ∷ s) =
    let rest = split_on sep s in if eqb (code c) sep then List.◌∷◌ [] rest else cons_head c rest

-- strings.SplitN(s, sep, 2), where a result of one part is `none`
unfoldable pub cut : ℕ → String → Option (String × String)
cut sep [] = none
cut sep (c ∷ s) =
    let rest = cut sep s in
    if eqb (code c) sep
    then some ([], s)
    else elim rest [ none ↦ none | some (a, b) ↦ some (c ∷ a, b) ]

-- strings.Join
unfoldable pub join : Char → List String → String
join sep List.[] = []
join sep (List.◌∷◌ p List.[]) = p
join sep (List.◌∷◌ p (List.◌∷◌ q ps)) = p +++ sep ∷ join sep (List.◌∷◌ q ps)

-- unicode.IsSpace
unfoldable pub is_space : ℕ → Bool
is_space c =
    (leb 9 c && leb c 13)
    || eqb c 32
    || eqb c 133
    || eqb c 160
    || eqb c 5760
    || (leb 8192 c && leb c 8202)
    || eqb c 8232
    || eqb c 8233
    || eqb c 8239
    || eqb c 8287
    || eqb c 12288

trim_left : String → String
trim_left [] = []
trim_left (c ∷ s) = let rest = trim_left s in if is_space (code c) then rest else c ∷ s

trim_right : String → String
trim_right [] = []
trim_right (c ∷ s) =
    let rest = trim_right s in if is_empty rest && is_space (code c) then [] else c ∷ rest

-- strings.TrimSpace
unfoldable pub trim_space : String → String
unfolding trim_left trim_right
trim_space s = trim_right (trim_left s)

-- The lower-case form of a character: the 26 ASCII letters, and itself otherwise.
lower : Char → Char
lower c =
    if leb b'A' (code c) && leb (code c) b'Z'
    then nth "abcdefghijklmnopqrstuvwxyz" (code c - b'A')
    else c

-- strings.ToLower on ASCII text
unfoldable pub to_lower : String → String
unfolding lower
to_lower [] = []
to_lower (c ∷ s) = lower c ∷ to_lower s

-- The upper-case form of a character: the 26 ASCII letters, and itself otherwise.
upper : Char → Char
upper c =
    if leb b'a' (code c) && leb (code c) b'z'
    then nth "ABCDEFGHIJKLMNOPQRSTUVWXYZ" (code c - b'a')
    else c

-- strings.ToUpper on ASCII text
unfoldable pub to_upper : String → String
unfolding upper
to_upper [] = []
to_upper (c ∷ s) = upper c ∷ to_upper s

-- Every character passes a test.
abbrev pub Chars : (ℕ → Bool) → String → Type 0
Chars p [] = Unit
Chars p (c ∷ s) = (p (code c) ≡ true) × Chars p s

pub Chars-append : (p : ℕ → Bool) (s t : String) → Chars p s → Chars p t → Chars p (s +++ t)
Chars-append p [] t h k = k
Chars-append p (c ∷ s) t h k = (h.0, Chars-append p s t h.1 k)

pub Chars-weaken :
    (p q : ℕ → Bool) → ((c : ℕ) → p c ≡ true → q c ≡ true) → (s : String) → Chars p s → Chars q s
Chars-weaken p q f [] h = tt
Chars-weaken p q f (c ∷ s) h = (f (code c) h.0, Chars-weaken p q f s h.1)

abbrev pub other_than : ℕ → ℕ → Bool
other_than sep c = not (eqb c sep)

abbrev pub not_space : ℕ → Bool
not_space c = not (is_space c)

-- A part without the separator is split off whole.
pub split_on-append :
    (sep : ℕ) (d : Char) (p s : String)
    → Chars (other_than sep) p
    → code d ≡ sep
    → split_on sep (p +++ d ∷ s) ≡ List.◌∷◌ p (split_on sep s)
unfolding split_on
split_on-append sep d [] s h e = ground arith
split_on-append sep d (c ∷ p) s h e = ground (arith, split_on-append sep d p s h.1 e, h.0)

pub split_on-whole :
    (sep : ℕ) (p : String) → Chars (other_than sep) p → split_on sep p ≡ List.◌∷◌ p List.[]
unfolding split_on
split_on-whole sep [] h = refl
split_on-whole sep (c ∷ p) h = ground (arith, split_on-whole sep p h.1, h.0)

pub cut-append :
    (sep : ℕ) (d : Char) (p s : String)
    → Chars (other_than sep) p
    → code d ≡ sep
    → cut sep (p +++ d ∷ s) ≡ some (p, s)
unfolding cut
cut-append sep d [] s h e = ground arith
cut-append sep d (c ∷ p) s h e = ground (arith, cut-append sep d p s h.1 e, h.0)

trim_right-whole : (s : String) → Chars not_space s → trim_right s ≡ s
unfolding trim_right
trim_right-whole [] h = refl
trim_right-whole (c ∷ s) h = ground (arith, trim_right-whole s h.1, h.0)

pub trim_space-whole : (s : String) → Chars not_space s → trim_space s ≡ s
unfolding trim_space
trim_space-whole [] h = refl
trim_space-whole (c ∷ s) h = ground (arith, trim_right-whole (c ∷ s) h, h.0)

pub split_on-cons :
    (sep : ℕ) (s : String) → (p : String) × (ps : List String) × (split_on sep s ≡ List.◌∷◌ p ps)
unfolding split_on
split_on-cons sep [] = ([], List.[], refl)
split_on-cons sep (c ∷ s) = elim (Bool-cases (eqb (code c) sep)) [
  | inl e ↦ ([], split_on sep s, rw e)
  | inr e ↦ let (p, ps, h) = split_on-cons sep s in (c ∷ p, ps, rw e (rw h))
]

join-cons_head :
    (d c : Char) (p : String) (ps : List String)
    → join d (cons_head c (List.◌∷◌ p ps)) ≡ c ∷ join d (List.◌∷◌ p ps)
unfolding join cons_head
join-cons_head d c p List.[] = refl
join-cons_head d c p (List.◌∷◌ q ps) = refl

join-nil-cons :
    (d : Char) (p : String) (ps : List String)
    → join d (List.◌∷◌ [] (List.◌∷◌ p ps)) ≡ d ∷ join d (List.◌∷◌ p ps)
unfolding join
join-nil-cons d p ps = refl

-- Joining what a split has cut gives the text back.
pub join-split_on : (d : Char) (s : String) → join d (split_on (code d) s) ≡ s
unfolding split_on
join-split_on d [] = unfold join in refl
join-split_on d (c ∷ s) =
    let (p, ps, h) = split_on-cons (code d) s in
    let ih : join d (List.◌∷◌ p ps) ≡ s = rw (← h) (join-split_on d s) in
    elim (Bool-cases (eqb (code c) (code d))) [
      | inl e ↦ rw e (rw h (join-nil-cons d p ps ∙ cc (ih, Char-path c d (ground arith))))
      | inr e ↦ rw e (rw h (join-cons_head d c p ps ∙ cc ih))
    ]

-- The bytes of a text whose characters are below 256.
unfoldable pub bytes_of : String → List ℕ
bytes_of [] = List.[]
bytes_of (c ∷ s) = List.◌∷◌ (code c) (bytes_of s)

-- `s[n:]`
unfoldable pub drop_chars : ℕ → String → String
drop_chars zero s = s
drop_chars (suc n) [] = []
drop_chars (suc n) (c ∷ s) = drop_chars n s
