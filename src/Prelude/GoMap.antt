-- ===== src/Prelude/GoMap.antt =====
-- Go's `map[string]V` as an association list. Iteration follows the list; Go's order is not
-- specified, and no theorem rests on it.
use Prim.Native.String.{String}
use mathlib.Core.Path.{◌≡◌, refl}
use mathlib.Core.Bool.{Bool, true, false}
use mathlib.Core.Option.{Option, none, some}
use mathlib.Core.List.{List, [], ◌∷◌}
use native.Mathlib.Omega.{arith}
use text.Mathlib.Text.{◌==◌}
use text.Mathlib.TextEquality.{eq_iff}
use transport_go.Prelude.Tests.{if◌then◌else◌, is_some, leb}
use transport_go.Prelude.GoSlice.{length}

abbrev pub GoMap {ℓ} : Type ℓ → Type ℓ
GoMap V = List (String × V)

module _ {ℓ} {V : Type ℓ} where
  -- v, ok := m[key]
  unfoldable pub lookup : String → GoMap V → Option V
  lookup key [] = none
  lookup key ((other, value) ∷ rest) =
      let below = lookup key rest in if other == key then some value else below

  -- m[key] = new
  unfoldable pub insert : String → V → GoMap V → GoMap V
  insert key new [] = (key, new) ∷ []
  insert key new ((other, value) ∷ rest) =
      let below = insert key new rest in
      if other == key then (other, new) ∷ rest else (other, value) ∷ below

  -- delete(m, key)
  unfoldable pub delete : String → GoMap V → GoMap V
  delete key [] = []
  delete key ((other, value) ∷ rest) =
      let below = delete key rest in if other == key then below else (other, value) ∷ below

  abbrev pub contains : String → GoMap V → Bool
  contains key m = is_some (lookup key m)

  pub lookup-insert :
      (key asked : String) (new : V) (m : GoMap V)
      → lookup asked (insert key new m) ≡ (if key == asked then some new else lookup asked m)
  unfolding insert lookup
  lookup-insert key asked new [] = refl
  lookup-insert key asked new ((other, value) ∷ rest) =
      let below = lookup-insert key asked new rest in
      ground (arith, below, eq_iff other asked, eq_iff other key, eq_iff key asked)

  pub lookup-delete :
      (key asked : String) (m : GoMap V)
      → lookup asked (delete key m) ≡ (if key == asked then none else lookup asked m)
  unfolding delete lookup
  lookup-delete key asked [] = ground arith
  lookup-delete key asked ((other, value) ∷ rest) =
      let below = lookup-delete key asked rest in
      ground (arith, below, eq_iff other asked, eq_iff other key, eq_iff key asked)

-- No key stands twice, as in a map.
abbrev pub HasOneEach : {V : Type 0} → GoMap V → Type 0
HasOneEach [] = Unit
HasOneEach ((key, value) ∷ rest) = (lookup key rest ≡ none) × HasOneEach rest

pub contains_none :
    {V : Type 0} (key : String) (m : GoMap V) → leb (length m) 0 ≡ true → contains key m ≡ false
unfolding lookup
contains_none key [] h = refl
contains_none key (x ∷ m) h = ground arith

pub insert-some :
    {V : Type 0} (key : String) (v : V) (m : GoMap V) → leb (length (insert key v m)) 0 ≡ false
unfolding insert
insert-some key v [] = refl
insert-some key v ((other, w) ∷ m) = ground arith
