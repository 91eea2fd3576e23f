-- ===== src/Prelude/GoSlice.antt =====
-- Slices as lists, under the library's names, over the native numbers.
use Prim.Native.Nat.{ℕ, zero, suc, ◌+◌, ◌<◌}
use mathlib.Core.Path.{◌≡◌, refl}
use mathlib.Core.Option.{Option, none, some}
use mathlib.Core.List.{List, [], ◌∷◌, ◌++◌}
use mathlib.Core.Bool.{Bool}
use native.Mathlib.Omega.{arith}
use transport_go.Prelude.Tests.{◌==◌, if◌then◌else◌}

module _ {ℓ} {A : Type ℓ} where
  abbrev pub length : List A → ℕ
  length [] = 0
  length (x ∷ xs) = suc (length xs)

  abbrev pub get_elem? : List A → ℕ → Option A
  get_elem? [] i = none
  get_elem? (x ∷ xs) zero = some x
  get_elem? (x ∷ xs) (suc i) = get_elem? xs i

  abbrev pub replicate : ℕ → A → List A
  replicate zero a = []
  replicate (suc n) a = a ∷ replicate n a

  -- s[i] = v; `none` is the run-time panic of an index out of range.
  abbrev pub set? : List A → ℕ → A → Option (List A)
  set? [] i v = none
  set? (x ∷ xs) zero v = some (v ∷ xs)
  set? (x ∷ xs) (suc i) v = elim (set? xs i v) [ none ↦ none | some ys ↦ some (x ∷ ys) ]

  -- `for _, x := range xs { if p(x) { out = append(out, x) } }`
  abbrev pub select : (A → Bool) → List A → List A
  select p [] = []
  select p (x ∷ xs) = let rest = select p xs in if p x then x ∷ rest else rest

  -- A predicate at every element.
  abbrev pub All {κ} : (A → Type κ) → List A → Type κ
  All P [] = Unit
  All P (first ∷ rest) = P first × All P rest

module _ {ℓ} {A : Type ℓ} where
  pub length-append : (xs ys : List A) → length (xs ++ ys) ≡ length xs + length ys
  length-append [] ys = omega arith
  length-append (x ∷ xs) ys = omega (arith, length-append xs ys)

  pub length-replicate : (n : ℕ) (a : A) → length (replicate n a) ≡ n
  length-replicate zero a = refl
  length-replicate (suc n) a = omega (arith, length-replicate n a)

  pub All-append {κ} :
      (P : A → Type κ) (front back : List A) → All P front → All P back → All P (front ++ back)
  All-append P [] back _ there = there
  All-append P (x ∷ front) back here there =
      let below = All-append P front back here.1 there in (here.0, below)

  pub get_elem?-some : (xs : List A) (i : ℕ) → i < length xs → (x : A) × (get_elem? xs i ≡ some x)
  get_elem?-some [] i h = elim h [ ]
  get_elem?-some (x ∷ xs) zero h = (x, refl)
  get_elem?-some (x ∷ xs) (suc i) h = get_elem?-some xs i (omega arith)

  -- A write in range succeeds and keeps the length.
  pub set?-some :
      (xs : List A) (i : ℕ) (v : A)
      → i < length xs
      → (ys : List A) × (set? xs i v ≡ some ys) × (length ys ≡ length xs)
  set?-some [] i v h = elim h [ ]
  set?-some (x ∷ xs) zero v h = (v ∷ xs, refl, refl)
  set?-some (x ∷ xs) (suc i) v h =
      let (ys, e, l) = set?-some xs i v (omega arith) in (x ∷ ys, ground arith, ground arith)

-- Lists of numbers as multisets.
abbrev pub count : ℕ → List ℕ → ℕ
count a [] = 0
count a (x ∷ xs) = let rest = count a xs in if x == a then suc rest else rest

-- The list without the first `a`, or `none`.
unfoldable pub take_out : ℕ → List ℕ → Option (List ℕ)
take_out a [] = none
take_out a (x ∷ xs) =
    if x == a then some xs else elim (take_out a xs) [ none ↦ none | some ys ↦ some (x ∷ ys) ]

pub take_out-count :
    (a b : ℕ) (xs ys : List ℕ) → take_out a xs ≡ some ys → count b xs ≡ count b (a ∷ ys)
unfolding take_out
take_out-count a b [] ys h = ground arith
take_out-count a b (x ∷ xs) [] h = ground arith
take_out-count a b (x ∷ xs) (y ∷ ys) h = ground (arith, take_out-count a b xs ys)

pub take_out-length :
    (a : ℕ) (xs ys : List ℕ) → take_out a xs ≡ some ys → length xs ≡ suc (length ys)
unfolding take_out
take_out-length a [] ys h = ground arith
take_out-length a (x ∷ xs) [] h = ground arith
take_out-length a (x ∷ xs) (y ∷ ys) h = ground (arith, take_out-length a xs ys)

pub take_out-singleton :
    (a b : ℕ) (ys : List ℕ) → take_out a (b ∷ []) ≡ some ys → (a ≡ b) × (ys ≡ [])
unfolding take_out
take_out-singleton a b ys h = ground arith

pub length-zero {ℓ} : {A : Type ℓ} (xs : List A) → length xs ≡ 0 → xs ≡ []
length-zero [] h = refl
length-zero (x ∷ xs) h = absurd (omega arith)
