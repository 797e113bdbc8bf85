-- ===== src/Prelude/Assoc.antt =====
-- Go's maps with number keys as association lists; the keys of a map are distinct. A loop over
-- a map visits the entries in list order, one of the orders that Go may choose.
use Prim.Native.Nat.{ℕ, ◌+◌, ◌≤◌, ◌<◌}
use mathlib.Core.Path.{◌≡◌, refl, subst}
use mathlib.Core.Logic.{◌≢◌, inl, inr}
use mathlib.Core.Option.{Option, none, some}
use mathlib.Core.List.{List, [], ◌∷◌, ◌++◌}
use native.Mathlib.Omega.{arith}
use go_max_tech_stack.Prelude.Tests.{◌==◌, ==_iff, if◌then◌else◌, Bool-cases}

module _ {ℓ} {V : Type ℓ} where
  -- `m[key]`, with its second result.
  unfoldable pub lookup : ℕ → List (ℕ × V) → Option V
  lookup key [] = none
  lookup key ((at, value) ∷ rest) = if at == key then some value else lookup key rest

  -- `delete(m, key)`.
  unfoldable pub remove : ℕ → List (ℕ × V) → List (ℕ × V)
  remove key [] = []
  remove key ((at, value) ∷ rest) = if at == key then rest else (at, value) ∷ remove key rest

  -- `m[key] = new`.
  unfoldable pub insert : ℕ → V → List (ℕ × V) → List (ℕ × V)
  insert key new [] = (key, new) ∷ []
  insert key new ((at, old) ∷ rest) =
      if at == key then (key, new) ∷ rest else (at, old) ∷ insert key new rest

  abbrev pub Distinct : List (ℕ × V) → Type ℓ
  Distinct [] = Unit
  Distinct ((k, v) ∷ m) = (lookup k m ≡ none) × Distinct m

  pub lookup-insert :
      (key other : ℕ) (new : V) (m : List (ℕ × V))
      → lookup other (insert key new m) ≡ (if key == other then some new else lookup other m)
  unfolding insert lookup
  lookup-insert key other new [] = refl
  lookup-insert key other new ((at, old) ∷ rest) = ground (arith, lookup-insert key other new rest)

  pub lookup-remove_ne : (k j : ℕ) (m : List (ℕ × V)) → k ≢ j → lookup j (remove k m) ≡ lookup j m
  unfolding lookup remove
  lookup-remove_ne k j [] h = refl
  lookup-remove_ne k j ((i, w) ∷ m) h = ground (arith, lookup-remove_ne k j m)

  pub lookup-remove_self : (k : ℕ) (m : List (ℕ × V)) → Distinct m → lookup k (remove k m) ≡ none
  unfolding lookup remove
  lookup-remove_self k [] d = refl
  lookup-remove_self k ((i, w) ∷ m) d = ground (arith, lookup-remove_self k m d.1)

  pub lookup-remove-none :
      (k j : ℕ) (m : List (ℕ × V)) → lookup j m ≡ none → lookup j (remove k m) ≡ none
  unfolding lookup remove
  lookup-remove-none k j [] h = refl
  lookup-remove-none k j ((i, w) ∷ m) h = ground (arith, lookup-remove-none k j m)

  pub insert-Distinct : (k : ℕ) (v : V) (m : List (ℕ × V)) → Distinct m → Distinct (insert k v m)
  unfolding insert lookup
  insert-Distinct k v [] d = (refl, tt)
  insert-Distinct k v ((i, w) ∷ m) d =
      ground (arith, lookup-insert k i v m, insert-Distinct k v m d.1)

  pub remove-Distinct : (k : ℕ) (m : List (ℕ × V)) → Distinct m → Distinct (remove k m)
  unfolding remove lookup
  remove-Distinct k [] d = tt
  remove-Distinct k ((i, w) ∷ m) d =
      ground (arith, lookup-remove-none k i m, remove-Distinct k m d.1)

  -- Adding under a key that is not there, and deleting it again, restores the map.
  pub remove-insert_fresh :
      (k : ℕ) (v : V) (m : List (ℕ × V)) → lookup k m ≡ none → remove k (insert k v m) ≡ m
  unfolding lookup insert remove
  remove-insert_fresh k v [] h = ground arith
  remove-insert_fresh k v ((i, w) ∷ m) h = ground (arith, remove-insert_fresh k v m)

  -- The sum of a weight over the values.
  unfoldable pub weight : (V → ℕ) → List (ℕ × V) → ℕ
  weight f [] = 0
  weight f ((k, v) ∷ m) = f v + weight f m

  abbrev pub weight_at : (V → ℕ) → Option V → ℕ
  weight_at f none = 0
  weight_at f (some v) = f v

  pub weight-insert :
      (f : V → ℕ) (k : ℕ) (v : V) (m : List (ℕ × V))
      → weight f (insert k v m) + weight_at f (lookup k m) ≡ weight f m + f v
  unfolding weight insert lookup
  weight-insert f k v [] = omega arith
  weight-insert f k v ((i, w) ∷ m) = ground (arith, weight-insert f k v m)

  pub weight-remove :
      (f : V → ℕ) (k : ℕ) (m : List (ℕ × V))
      → weight f (remove k m) + weight_at f (lookup k m) ≡ weight f m
  unfolding weight remove lookup
  weight-remove f k [] = omega arith
  weight-remove f k ((i, w) ∷ m) = ground (arith, weight-remove f k m)

  pub weight-lookup-le :
      (f : V → ℕ) (k : ℕ) (m : List (ℕ × V)) → weight_at f (lookup k m) ≤ weight f m
  unfolding weight lookup
  weight-lookup-le f k [] = omega arith
  weight-lookup-le f k ((i, w) ∷ m) = ground (arith, weight-lookup-le f k m)

  -- Every entry of the map satisfies a predicate of its key and its value.
  abbrev pub Entries {κ} : (ℕ → V → Type κ) → List (ℕ × V) → Type κ
  Entries P [] = Unit
  Entries P ((k, v) ∷ m) = P k v × Entries P m

  pub Entries-insert {κ} :
      (P : ℕ → V → Type κ) (k : ℕ) (v : V) (m : List (ℕ × V))
      → P k v
      → Entries P m
      → Entries P (insert k v m)
  unfolding insert
  Entries-insert P k v [] p h = (p, tt)
  Entries-insert P k v ((i, w) ∷ m) p h = ground (arith, Entries-insert P k v m p h.1)

  pub Entries-remove {κ} :
      (P : ℕ → V → Type κ) (k : ℕ) (m : List (ℕ × V)) → Entries P m → Entries P (remove k m)
  unfolding remove
  Entries-remove P k [] h = tt
  Entries-remove P k ((i, w) ∷ m) h = ground (arith, Entries-remove P k m h.1)

  pub Entries-lookup {κ} :
      (P : ℕ → V → Type κ) (k : ℕ) (v : V) (m : List (ℕ × V))
      → Entries P m
      → lookup k m ≡ some v
      → P k v
  unfolding lookup
  Entries-lookup P k v [] h e = cc
  Entries-lookup P k v ((i, w) ∷ m) h e = elim (Bool-cases (i == k)) [
    | inl hit ↦ subst (λ x. P x v) ((==_iff i k).0 hit) (subst (P i) (ground arith) h.0)
    | inr miss ↦ Entries-lookup P k v m h.1 (ground arith)
  ]

  pub Entries-map {κ μ} :
      {P : ℕ → V → Type κ} {Q : ℕ → V → Type μ} (m : List (ℕ × V))
      → ((k : ℕ) (v : V) → P k v → Q k v)
      → Entries P m
      → Entries Q m
  Entries-map [] f h = tt
  Entries-map ((k, v) ∷ m) f h = (f k v h.0, Entries-map m f h.1)

  abbrev pub KeysBelow : ℕ → List (ℕ × V) → Type 0
  KeysBelow n = Entries (λ k _. k < n)

  pub lookup_above : (n k : ℕ) (m : List (ℕ × V)) → KeysBelow n m → n ≤ k → lookup k m ≡ none
  unfolding lookup
  lookup_above n k [] b h = refl
  lookup_above n k ((i, w) ∷ m) b h = ground (arith, lookup_above n k m b.1)

  pub KeysBelow-mono : {n n' : ℕ} (m : List (ℕ × V)) → n ≤ n' → KeysBelow n m → KeysBelow n' m
  KeysBelow-mono m h = Entries-map m (λ k v b. omega arith)

  pub weight-eq-zero : (f : V → ℕ) (m : List (ℕ × V)) → Entries (λ _ v. f v ≡ 0) m → weight f m ≡ 0
  unfolding weight
  weight-eq-zero f [] h = refl
  weight-eq-zero f ((k, v) ∷ m) h = omega (arith, h.0, weight-eq-zero f m h.1)

  pub eq-zero-weight : (f : V → ℕ) (m : List (ℕ × V)) → weight f m ≡ 0 → Entries (λ _ v. f v ≡ 0) m
  unfolding weight
  eq-zero-weight f [] h = tt
  eq-zero-weight f ((k, v) ∷ m) h = (omega arith, eq-zero-weight f m (omega arith))

  pub Entries-zip {κ μ ν} :
      {P : ℕ → V → Type κ} {Q : ℕ → V → Type μ} {R : ℕ → V → Type ν} (m : List (ℕ × V))
      → ((k : ℕ) (v : V) → P k v → Q k v → R k v)
      → Entries P m
      → Entries Q m
      → Entries R m
  Entries-zip [] f h h' = tt
  Entries-zip ((k, v) ∷ m) f h h' = (f k v h.0 h'.0, Entries-zip m f h.1 h'.1)

  pub weight-append :
      (f : V → ℕ) (m m' : List (ℕ × V)) → weight f (m ++ m') ≡ weight f m + weight f m'
  unfolding weight
  weight-append f [] m' = omega arith
  weight-append f ((k, v) ∷ m) m' = omega (arith, weight-append f m m')

  pub Entries-append {κ} :
      (P : ℕ → V → Type κ) (m m' : List (ℕ × V)) → Entries P m → Entries P m' → Entries P (m ++ m')
  Entries-append P [] m' h h' = h'
  Entries-append P ((k, v) ∷ m) m' h h' = (h.0, Entries-append P m m' h.1 h')
