-- ===== src/Plank/Middleware/Chain.antt =====
-- The loop of `buildMiddlewareChain` and the nesting of the middleware that it stands for.
use transport_go.Prelude.{
  ℕ, zero, suc, ◌-◌, ◌<◌, ◌≡◌, refl, sym, ap, ◌∙◌, none, some, List, [], ◌∷◌, ◌==◌, arith,
  if◌then◌else◌,
}
use transport_go.Prelude.GoSlice.{length, get_elem?}
use transport_go.Plank.Middleware.{
  Handler, no_handler, MiddlewareFunc, chain_loop, build_middleware_chain,
}

module _ {F : Type 0} where
  -- Each middleware around the ones behind it, the first outermost.
  unfoldable pub nested : List (MiddlewareFunc F) → Handler F → Handler F
  nested [] original = original
  nested (middleware ∷ rest) original = middleware (nested rest original)

  abbrev pub chain_of : List (MiddlewareFunc F) → Handler F → Handler F
  chain_of [] original = no_handler
  chain_of (middleware ∷ rest) original = middleware (nested rest original)

  abbrev drop : ℕ → List (MiddlewareFunc F) → List (MiddlewareFunc F)
  drop zero ms = ms
  drop (suc i) [] = []
  drop (suc i) (m ∷ ms) = drop i ms

  drop-length : (ms : List (MiddlewareFunc F)) → drop (length ms) ms ≡ []
  drop-length [] = refl
  drop-length (m ∷ ms) = drop-length ms

  drop-get_elem? :
      (ms : List (MiddlewareFunc F)) (i : ℕ)
      → i < length ms
      → (m : MiddlewareFunc F) × (get_elem? ms i ≡ some m) × (drop i ms ≡ m ∷ drop (suc i) ms)
  drop-get_elem? [] i l = absurd (omega (arith, l))
  drop-get_elem? (m ∷ ms) zero l = (m, refl, refl)
  drop-get_elem? (m ∷ ms) (suc i) l = drop-get_elem? ms i (omega arith)

  chain_loop-suc :
      (ms : List (MiddlewareFunc F)) (original final : Handler F) (i : ℕ) (m : MiddlewareFunc F)
      → get_elem? ms i ≡ some m
      → chain_loop ms original (suc i) final
        ≡ chain_loop ms original i (m (if i == length ms - 1 then original else final))
  unfolding chain_loop
  chain_loop-suc ms original final i m e =
      ap
        (λ o. elim o [
          | none ↦ none
          | some middleware ↦
              chain_loop ms original i (middleware (if i == length ms - 1 then original else final))
        ])
        e

  -- A round behind the first: what is built so far is the nesting from the index on.
  chain_loop_inner :
      (ms : List (MiddlewareFunc F)) (original : Handler F) (k : ℕ)
      → k < length ms
      → chain_loop ms original k (nested (drop k ms) original) ≡ some (nested ms original)
  unfolding chain_loop nested
  chain_loop_inner ms original zero l = refl
  chain_loop_inner ms original (suc i) l =
      let (m, e, d) = drop-get_elem? ms i (omega arith) in
      let inner = nested (drop (suc i) ms) original in
      let is_inner : (if i == length ms - 1 then original else inner) ≡ inner = ground arith in
      chain_loop-suc ms original inner i m e
      ∙ ap (λ h. chain_loop ms original i (m h)) is_inner
      ∙ ap (λ rest. chain_loop ms original i (nested rest original)) (sym d)
      ∙ chain_loop_inner ms original i (omega arith)

  -- For at least one middleware the loop returns the nesting of all of them around the original
  -- handler, the first outermost; for none it returns nil.
  pub build_middleware_chain-nested :
      (ms : List (MiddlewareFunc F)) (original : Handler F)
      → build_middleware_chain ms original ≡ some (chain_of ms original)
  unfolding build_middleware_chain chain_loop nested
  build_middleware_chain-nested [] original = refl
  build_middleware_chain-nested (first ∷ rest) original =
      let ms = first ∷ rest in
      let last = length rest in
      let (m, e, d) = drop-get_elem? ms last (omega arith) in
      let is_first : (if last == length ms - 1 then original else no_handler) ≡ original =
        ground arith in
      chain_loop-suc ms original no_handler last m e
      ∙ ap (λ h. chain_loop ms original last (m h)) is_first
      ∙ ap (λ tail. chain_loop ms original last (m (nested tail original))) (sym (drop-length ms))
      ∙ ap (λ tail. chain_loop ms original last (nested tail original)) (sym d)
      ∙ chain_loop_inner ms original last (omega arith)
