-- ===== src/Bridge/Connection/Table.antt =====
-- The client's table of subscriptions: each destination has at most one object in it.
use transport_go.Prelude.{
  String, ◌≡◌, refl, not, Option, none, some, List, [], ◌∷◌, arith, str_eq, eq_iff, if◌then◌else◌,
  sym, subst, Bool-cases, inl, inr,
}
use transport_go.Prelude.GoMap.{GoMap, lookup, insert, lookup-insert, HasOneEach}
use transport_go.Bridge.Connection.{BridgeClientSub, Delivered, deliver, blocks_on_error}
use transport_go.Bridge.Connection.Status.{Status, fresh, over, live, is_known}

-- Each object stands under its destination, and is subscribed until its channel is closed.
abbrev pub IsTidy : GoMap BridgeClientSub → Type 0
IsTidy [] = Unit
IsTidy ((key, sub) ∷ subs) =
    ((sub.destination ≡ key) × (sub.subscribed ≡ not sub.closed)) × IsTidy subs

abbrev pub status_of : Option BridgeClientSub → Status
status_of none = fresh
status_of (some sub) = if sub.closed then over else live sub.id

pub HasOneEach-insert :
    {V : Type 0} (key : String) (v : V) (m : GoMap V) → HasOneEach m → HasOneEach (insert key v m)
unfolding insert lookup
HasOneEach-insert key v [] u = (refl, tt)
HasOneEach-insert key v ((k, w) ∷ m) u = elim (Bool-cases (str_eq k key)) [
  | inl y ↦
      subst (λ b. HasOneEach (if b then (k, v) ∷ m else (k, w) ∷ insert key v m)) (sym y) (u.0, u.1)
  | inr n ↦
      let absent : lookup k (insert key v m) ≡ none =
        ground (arith, u.0, n, eq_iff k key, eq_iff key k, lookup-insert key k v m) in
      subst (λ b. HasOneEach (if b then (k, v) ∷ m else (k, w) ∷ insert key v m)) (sym n)
        (absent, HasOneEach-insert key v m u.1)
]

pub IsTidy-insert :
    (sub : BridgeClientSub) (key : String) (subs : GoMap BridgeClientSub)
    → sub.destination ≡ key
    → sub.subscribed ≡ not sub.closed
    → IsTidy subs
    → IsTidy (insert key sub subs)
unfolding insert
IsTidy-insert sub key [] d o t = ((d, o), tt)
IsTidy-insert sub key ((k, old) ∷ subs) d o t =
    let left = insert key sub subs in
    elim (Bool-cases (str_eq k key)) [
      | inl y ↦
          subst (λ b. IsTidy (if b then (k, sub) ∷ subs else (k, old) ∷ left)) (sym y)
            ((ground (arith, d, y, eq_iff k key), o), t.1)
      | inr n ↦
          subst (λ b. IsTidy (if b then (k, sub) ∷ subs else (k, old) ∷ left)) (sym n)
            (t.0, IsTidy-insert sub key subs d o t.1)
    ]

pub lookup-destination :
    (d : String) (sub : BridgeClientSub) (subs : GoMap BridgeClientSub)
    → IsTidy subs
    → lookup d subs ≡ some sub
    → sub.destination ≡ d
unfolding lookup
lookup-destination d sub [] t e = ground arith
lookup-destination d sub ((key, first) ∷ subs) t e = elim (Bool-cases (str_eq key d)) [
  | inl y ↦ ground (arith, y, e, t.0.0, eq_iff key d)
  | inr n ↦ lookup-destination d sub subs t.1 (ground (arith, n, e))
]

module _ {B : Type 0} where
  abbrev pub reaches : String → B → Status → List (Delivered B)
  reaches d body (live id) = record { id = id; destination = d; body = body } ∷ []
  reaches d body _ = []

  pub deliver-lookup :
      (d : String) (body : B) (subs : GoMap BridgeClientSub)
      → HasOneEach subs
      → IsTidy subs
      → deliver d body subs ≡ reaches d body (status_of (lookup d subs))
  unfolding deliver lookup
  deliver-lookup d body [] u t = refl
  deliver-lookup d body ((key, sub) ∷ subs) u t =
      ground (arith, u.0, t.0.0, t.0.1, eq_iff key d, deliver-lookup d body subs u.1 t.1)

pub blocks_on_error-lookup :
    (d : String) (subs : GoMap BridgeClientSub)
    → HasOneEach subs
    → IsTidy subs
    → blocks_on_error d subs ≡ is_known (status_of (lookup d subs))
unfolding blocks_on_error lookup
blocks_on_error-lookup d [] u t = refl
blocks_on_error-lookup d ((key, sub) ∷ subs) u t =
    ground (arith, u.0, t.0.0, t.0.1, eq_iff key d, blocks_on_error-lookup d subs u.1 t.1)
