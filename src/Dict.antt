-- ===== src/Dict.antt =====
-- A Python `dict[str, V]` in insertion order: a write to a key that is there keeps its place, and
-- a new key goes to the end, so `values` is what the program's loops and comprehensions see.
use kerislab.Prelude.{
  ◌+◌, String, ◌≡◌, refl, Option, none, some, Bool, true, false, List, [], ◌∷◌, ◌==◌, eq_iff,
  eq_refl, arith, count, if◌then◌else◌, select, Bool-cases, inl, inr,
}

abbrev pub Dict {ℓ} : Type ℓ → Type ℓ
Dict V = List (String × V)

module _ {ℓ} {V : Type ℓ} where
  -- `d.get(k)`
  unfoldable pub lookup : String → Dict V → Option V
  lookup k [] = none
  lookup k ((j, v) ∷ d) = if j == k then some v else lookup k d

  -- `k in d`
  unfoldable pub contains : String → Dict V → Bool
  unfolding lookup
  contains k d = elim (lookup k d) [ none ↦ false | some _ ↦ true ]

  -- `d[k] = v`
  unfoldable pub insert : String → V → Dict V → Dict V
  insert k v [] = (k, v) ∷ []
  insert k v ((j, w) ∷ d) = if j == k then (j, v) ∷ d else (j, w) ∷ insert k v d

  -- `d.values()`
  unfoldable pub values : Dict V → List V
  values [] = []
  values ((j, v) ∷ d) = v ∷ values d

  -- the first entry, with its key, whose value passes a test
  unfoldable pub find_entry : (V → Bool) → Dict V → Option (String × V)
  find_entry p [] = none
  find_entry p ((j, v) ∷ d) = if p v then some (j, v) else find_entry p d

  pub lookup-insert :
      (k j : String) (v : V) (d : Dict V)
      → lookup j (insert k v d) ≡ (if k == j then some v else lookup j d)
  unfolding lookup insert
  lookup-insert k j v [] = refl
  lookup-insert k j v ((i, w) ∷ d) =
      ground (arith, eq_iff k j, eq_iff i k, eq_iff i j, lookup-insert k j v d)

  pub lookup-insert_self : (k : String) (v : V) (d : Dict V) → lookup k (insert k v d) ≡ some v
  lookup-insert_self k v d = simp (lookup-insert, eq_refl)

  -- A write over an entry exchanges one value for another, and one to a new key adds a value.
  pub count-insert :
      (p : V → Bool) (k : String) (v old : V) (d : Dict V)
      → lookup k d ≡ some old
      → count p (values (insert k v d)) + (if p old then 1 else 0)
        ≡ count p (values d) + (if p v then 1 else 0)
  unfolding lookup insert values count
  count-insert p k v old [] h = cc
  count-insert p k v old ((i, w) ∷ d) h = ground (arith, count-insert p k v old d)

  pub count-insert_new :
      (p : V → Bool) (k : String) (v : V) (d : Dict V)
      → lookup k d ≡ none
      → count p (values (insert k v d)) ≡ count p (values d) + (if p v then 1 else 0)
  unfolding lookup insert values count
  count-insert_new p k v [] h = ground arith
  count-insert_new p k v ((i, w) ∷ d) h = ground (arith, count-insert_new p k v d)

  -- A write over an entry that a search has found, which still passes the test, is what the search
  -- finds then.
  pub find_entry-insert :
      (p : V → Bool) (k : String) (old v : V) (d : Dict V)
      → find_entry p d ≡ some (k, old)
      → p v ≡ true
      → find_entry p (insert k v d) ≡ some (k, v)
  unfolding find_entry insert
  find_entry-insert p k old v [] h e = cc
  find_entry-insert p k old v ((j, x) ∷ d) h e =
      ground (arith, eq_iff j k, find_entry-insert p k old v d)

  pub find_entry-holds :
      (p : V → Bool) (k : String) (v : V) (d : Dict V) → find_entry p d ≡ some (k, v) → p v ≡ true
  unfolding find_entry
  find_entry-holds p k v [] h = cc
  find_entry-holds p k v ((j, x) ∷ d) h = ground (arith, find_entry-holds p k v d)

  -- If an entry passes a test, a filter of the values keeps one.
  pub select-of_lookup :
      (p : V → Bool) (k : String) (v : V) (d : Dict V)
      → lookup k d ≡ some v
      → p v ≡ true
      → (x : V) × (xs : List V) × (select p (values d) ≡ x ∷ xs)
  unfolding lookup values select
  select-of_lookup p k v [] h e = cc
  select-of_lookup p k v ((j, x) ∷ d) h e = elim (Bool-cases (p x)) [
    | inl hit ↦ rw hit (x, select p (values d), refl)
    | inr miss ↦ rw miss (select-of_lookup p k v d (ground (arith, eq_iff j k)) e)
  ]
