-- ===== src/Sync/Matching/Table.antt =====
-- A `dict` from keys to lists, built by `setdefault(key, []).append(value)`.
use mathlib.Core.List.{append-nil}
use worshiptool_churchtools.Prelude.{
  ◌≡◌, ◌↔◌, Bool, true, List, [], ◌∷◌, ◌++◌, if◌then◌else◌, arith,
}

abbrev pub Table : Type 0 → Type 0 → Type 0
Table K V = List (K × List V)

-- A key is told by an equality test.
module _ {K V : Type 0} (same : K → K → Bool) where
  unfoldable pub append_to : K → V → Table K V → Table K V
  append_to key value [] = (key, value ∷ []) ∷ []
  append_to key value ((k, values) ∷ table) =
      let rest = append_to key value table in
      if same k key then (k, values ++ value ∷ []) ∷ table else (k, values) ∷ rest

  -- `table.get(key, ())`
  unfoldable pub values_at : K → Table K V → List V
  values_at key [] = []
  values_at key ((k, values) ∷ table) =
      let rest = values_at key table in if same k key then values else rest

module _ {K V : Type 0} (same : K → K → Bool)
    (same_iff : (a b : K) → (same a b ≡ true) ↔ (a ≡ b)) where
  pub values_at-append_to :
      (k key : K) (value : V) (table : Table K V)
      → values_at same key (append_to same k value table)
        ≡ values_at same key table ++ (if same k key then value ∷ [] else [])
  unfolding values_at append_to
  values_at-append_to k key value [] = ground arith
  values_at-append_to k key value ((j, values) ∷ table) = ground (
    arith,
    same_iff j k,
    same_iff j key,
    same_iff k key,
    append-nil values,
    append-nil (values_at same key table),
    values_at-append_to k key value table,
  )
