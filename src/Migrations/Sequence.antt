-- ===== src/Migrations/Sequence.antt =====
-- Sequences of calls on a database (apps/api/kerislab/migrations.py) that return.
use kerislab.Migrations.{MigrationConnection, then_do, leaving, Call}
use kerislab.Prelude.{List, String, ◌≡◌, some, ◌∷◌, inl, inr, Option, none, refl, true, ◌⊎◌}

module _ {D : Type 0} where
  pub call_cases :
      {A : Type 0} (r : Option A × D)
      → ((d : D) × (r ≡ (none, d))) ⊎ ((a : A) × (d : D) × (r ≡ (some a, d)))
  call_cases (none, d) = inl (d, refl)
  call_cases (some a, d) = inr (a, d, refl)

  pub appended :
      (stem : String) (r : Option (List String) × D) (now : List String) (u : D)
      → then_do {B = List String} r (λ rest v. (some (stem ∷ rest), v)) ≡ (some now, u)
      → (rest : List String) × (r ≡ (some rest, u)) × (now ≡ stem ∷ rest)
  appended stem (none, d) now u h = cc
  appended stem (some rest, d) now u h = let same : d ≡ u = cc in (rest, rw same refl, cc)

  pub last-some :
      {A B : Type 0} (r : Option A × D) (a b : B) (v : D)
      → then_do {B = B} r (λ _ u. (some a, u)) ≡ (some b, v)
      → (x : A) × (r ≡ (some x, v)) × (a ≡ b)
  last-some (none, d) a b v h = cc
  last-some (some x, d) a b v h = let same : d ≡ v = cc in (x, rw same refl, cc)

  -- A sequence that returns is made of two parts that return.
  pub then_do-some :
      {A B : Type 0} (r : Option A × D) (rest : A → Call D B) (b : B) (v : D)
      → then_do r rest ≡ (some b, v)
      → (a : A) × (u : D) × (r ≡ (some a, u)) × (rest a u ≡ (some b, v))
  then_do-some (none, d) rest b v h = cc
  then_do-some (some a, d) rest b v h = (a, d, refl, h)

module _ {D : Type 0} (connection : MigrationConnection D) where
  pub leaving-some :
      {A : Type 0} (r : Option A × D) (a : A) (v : D)
      → leaving connection r ≡ (some a, v)
      → (u : D) × (r ≡ (some a, u)) × (connection.leave true u ≡ (some tt, v))
  unfolding leaving
  leaving-some (none, d) a v h = cc
  leaving-some (some x, d) a v h =
      let (_, u, leaves, rest) = then_do-some (connection.leave true d) _ a v h in
      let same : u ≡ v = cc in (d, cc, rw same at leaves)
