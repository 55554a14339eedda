-- ===== src/Store/Memory/Index.antt =====
-- One index over one table, and what a write does to the two.
use payrouter.Prelude.{
  String, Dict, lookup, insert, ◌≡◌, refl, arith, is_empty, lookup-insert, eq_iff, ◌==◌, some, inl,
  inr, Bool-cases,
}
use payrouter.Store.Memory.{index_by}
use payrouter.Store.Memory.Laws.{lookup-index_by}

-- `index` sends each of its keys to the id of a record in `records`.
pub record Resolves {V : Type 0} (index : Dict String) (records : Dict V) : Type 0 where
  pub target : (k id : String) → lookup k index ≡ some id → (v : V) × (lookup id records ≡ some v)

pub record Keyed {V : Type 0} (id_of : V → String) (records : Dict V) : Type 0 where
  pub own_id : (k : String) (v : V) → lookup k records ≡ some v → id_of v ≡ k

pub Keyed-insert_at :
    {V : Type 0} (id_of : V → String) (id : String) (v : V) (m : Dict V)
    → id_of v ≡ id
    → Keyed id_of m
    → Keyed id_of (insert id v m)
Keyed-insert_at id_of id v m e h = record {
  own_id = λ k w p. ground (arith, lookup-insert id k v m, eq_iff id k, h.own_id k w);
}

pub Keyed-insert :
    {V : Type 0} (id_of : V → String) (v : V) (m : Dict V)
    → Keyed id_of m
    → Keyed id_of (insert (id_of v) v m)
Keyed-insert id_of v m h = Keyed-insert_at id_of (id_of v) v m refl h

-- A record stays present under every write to its table.
present-insert :
    {V : Type 0} (id j : String) (v w : V) (m : Dict V)
    → lookup j m ≡ some w
    → (u : V) × (lookup j (insert id v m) ≡ some u)
present-insert id j v w m h = elim (Bool-cases (id == j)) [
  | inl e ↦ (v, rw (lookup-insert, e))
  | inr e ↦ (w, rw (lookup-insert, e) h)
]

pub Resolves-insert :
    {V : Type 0} (index : Dict String) (id : String) (v : V) (m : Dict V)
    → Resolves index m
    → Resolves index (insert id v m)
Resolves-insert index id v m h = record {
  target = λ k j e. let (w, p) = h.target k j e in present-insert id j v w m p;
}

pub Resolves-index_by :
    {V : Type 0} (key id : String) (index : Dict String) (v : V) (m : Dict V)
    → Resolves index m
    → Resolves (index_by key id index) (insert id v m)
Resolves-index_by key id index v m h = record {
  target = λ k j e. elim (Bool-cases (is_empty key)) [
    | inl p ↦
        (Resolves-insert index id v m h).target k j (ground (arith, lookup-index_by key id k index))
    | inr p ↦ elim (Bool-cases (key == k)) [
      | inl q ↦
          (v, ground (arith, lookup-index_by key id k index, lookup-insert id j v m, eq_iff id j))
      | inr q ↦
          (Resolves-insert index id v m h).target k j
            (ground (arith, lookup-index_by key id k index))
    ]
  ];
}
