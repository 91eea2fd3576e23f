-- ===== src/Bus/Transaction/Session/Facts.antt =====
-- Counting the answers that are missing.
use transport_go.Prelude.{
  ℕ, zero, suc, ◌+◌, ◌≤◌, ◌<◌, ◌≡◌, refl, Option, none, some, List, [], ◌∷◌, arith, ◌==◌,
  if◌then◌else◌,
}
use transport_go.Prelude.GoSlice.{length, set?, replicate}

module _ {M : Type 0} where
  -- 1 where the answer is missing, 0 elsewhere.
  abbrev pub open_at : ℕ → List (Option M) → ℕ
  open_at i [] = 0
  open_at zero (none ∷ rs) = 1
  open_at zero (some m ∷ rs) = 0
  open_at (suc i) (r ∷ rs) = open_at i rs

  abbrev pub missing : List (Option M) → ℕ
  missing [] = 0
  missing (none ∷ rs) = suc (missing rs)
  missing (some m ∷ rs) = missing rs

  pub missing-set? :
      (i : ℕ) (rs ss : List (Option M)) (m : M)
      → set? rs i (some m) ≡ some ss
      → missing ss + open_at i rs ≡ missing rs
  missing-set? i [] ss m h = ground arith
  missing-set? zero (none ∷ rs) ss m h = ground arith
  missing-set? zero (some x ∷ rs) ss m h = ground arith
  missing-set? (suc i) (none ∷ rs) [] m h = ground arith
  missing-set? (suc i) (some x ∷ rs) [] m h = ground arith
  missing-set? (suc i) (none ∷ rs) (s ∷ ss) m h = ground (arith, missing-set? i rs ss m)
  missing-set? (suc i) (some x ∷ rs) (s ∷ ss) m h = ground (arith, missing-set? i rs ss m)

  pub open_at-set? :
      (i j : ℕ) (rs ss : List (Option M)) (m : M)
      → set? rs i (some m) ≡ some ss
      → open_at j ss ≡ (if i == j then 0 else open_at j rs)
  open_at-set? i j [] ss m h = ground arith
  open_at-set? zero zero (r ∷ rs) ss m h = ground arith
  open_at-set? zero (suc j) (r ∷ rs) ss m h = ground arith
  open_at-set? (suc i) j (r ∷ rs) [] m h = ground arith
  open_at-set? (suc i) zero (none ∷ rs) (s ∷ ss) m h = ground arith
  open_at-set? (suc i) zero (some x ∷ rs) (s ∷ ss) m h = ground arith
  open_at-set? (suc i) (suc j) (r ∷ rs) (s ∷ ss) m h = ground (arith, open_at-set? i j rs ss m)

  pub open_at-le : (i : ℕ) (rs : List (Option M)) → open_at i rs ≤ 1
  open_at-le i [] = omega arith
  open_at-le zero (none ∷ rs) = omega arith
  open_at-le zero (some m ∷ rs) = omega arith
  open_at-le (suc i) (r ∷ rs) = open_at-le i rs

  -- A missing answer has a place in the slice.
  pub lt-length_of_open : (i : ℕ) (rs : List (Option M)) → 0 < open_at i rs → i < length rs
  lt-length_of_open i [] h = omega arith
  lt-length_of_open zero (none ∷ rs) h = omega arith
  lt-length_of_open zero (some m ∷ rs) h = omega arith
  lt-length_of_open (suc i) (r ∷ rs) h = omega (arith, lt-length_of_open i rs)

pub missing-replicate : (M : Type 0) (n : ℕ) → missing (replicate {A = Option M} n none) ≡ n
missing-replicate M zero = refl
missing-replicate M (suc n) = omega (arith, missing-replicate M n)

pub open_at-replicate :
    (M : Type 0) (i n : ℕ) → i < n → open_at i (replicate {A = Option M} n none) ≡ 1
open_at-replicate M i zero h = elim h [ ]
open_at-replicate M zero (suc n) h = refl
open_at-replicate M (suc i) (suc n) h = open_at-replicate M i n (omega arith)
