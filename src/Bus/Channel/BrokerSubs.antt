-- ===== src/Bus/Channel/BrokerSubs.antt =====
-- `removeBrokerSubscription`.
use mathlib.Core.List.{append_assoc}
use native.Mathlib.Nat.{zero-add}
use transport_go.Prelude.{
  ℕ, zero, suc, ◌+◌, ◌-◌, ◌≤◌, ◌<◌, ◌≡◌, refl, ap, ap₂, sym, subst, ◌∙◌, false, true, Option, none,
  some, List, [], ◌∷◌, ◌++◌, arith, ◌==◌,
}
use transport_go.Prelude.GoSlice.{length, get_elem?, set?, length-append, All}
use transport_go.Bus.Channel.{
  Channel, ConnectionSub, Subscription, Slice, remove_sub, remove_sub_loop,
  remove_broker_subscription, take,
}

module _ {ℓ} {A : Type ℓ} where
  get_elem?-append : (pre post : List A) (x : A) → get_elem? (pre ++ x ∷ post) (length pre) ≡ some x
  get_elem?-append [] post x = refl
  get_elem?-append (p ∷ pre) post x = get_elem?-append pre post x

  set?-append :
      (pre post : List A) (x v : A) → set? (pre ++ x ∷ post) (length pre) v ≡ some (pre ++ v ∷ post)
  set?-append [] post x v = refl
  set?-append (p ∷ pre) post x v = rw (set?-append pre post x v)

  take-append : (xs ys : List A) → take (length xs) (xs ++ ys) ≡ xs
  take-append [] ys = refl
  take-append (x ∷ xs) ys = rw (take-append xs ys)

abbrev pub IsOther : ℕ → ConnectionSub → Type 0
IsOther id cs = (id == cs.s.id) ≡ false

-- One round at another id.
remove_sub_loop_other :
    (id n i : ℕ) (s : Slice) (o : ConnectionSub)
    → get_elem? s.array i ≡ some o
    → IsOther id o
    → remove_sub_loop id (suc n) i s ≡ remove_sub_loop id n (suc i) s
unfolding remove_sub_loop
remove_sub_loop_other id n i s o e v = rw (e, remove_sub_loop) (rw v)

-- One round at the id: a fault of `removeSub`, or its result.
remove_sub_loop_hit :
    (id n i : ℕ) (s : Slice) (x : ConnectionSub)
    → get_elem? s.array i ≡ some x
    → (id == x.s.id) ≡ true
    → remove_sub_loop id (suc n) i s
      ≡ elim (remove_sub i s) [ none ↦ none | some t ↦ remove_sub_loop id n (suc i) t ]
unfolding remove_sub_loop
remove_sub_loop_hit id n i s x e v = rw (e, remove_sub_loop) (rw v)

-- Subscriptions with another id are passed over.
remove_sub_loop-others :
    (id k n i : ℕ) (s : Slice) (before others after : List ConnectionSub)
    → n ≡ length others + k
    → i ≡ length before
    → s.array ≡ before ++ (others ++ after)
    → All (IsOther id) others
    → remove_sub_loop id n i s ≡ remove_sub_loop id k (i + length others) s
remove_sub_loop-others id k n i s before [] after en ei ea v =
    let a : n ≡ k = omega arith in
    let b : i ≡ i + 0 = omega arith in ap₂ (λ x y. remove_sub_loop id x y s) a b
remove_sub_loop-others id k zero i s before (o ∷ others) after en ei ea v = absurd (omega arith)
remove_sub_loop-others id k (suc n) i s before (o ∷ others) after en ei ea v =
    let e : suc i + length others ≡ i + suc (length others) = omega arith in
    remove_sub_loop_other id n i s o (rw (ea, ei) (get_elem?-append before (others ++ after) o)) v.0
    ∙ remove_sub_loop-others id k n (suc i) s (before ++ o ∷ []) others after (omega arith)
        (omega (arith, length-append before (o ∷ [])))
        (ea ∙ sym (append_assoc before (o ∷ []) (others ++ after))) v.1
    ∙ ap (λ j. remove_sub_loop id k j s) e

-- `removeSub` at an index that the slice no longer has is a panic.
remove_sub_out : (i : ℕ) (s : Slice) → s.len ≤ i → remove_sub i s ≡ none
unfolding remove_sub
remove_sub_out i s h = ground arith

-- `removeSub` in range, by its two reads and two writes.
remove_sub_swaps :
    (i n : ℕ) (array swapped result : List ConnectionSub) (x last : ConnectionSub)
    → i < suc n
    → get_elem? array i ≡ some x
    → get_elem? array n ≡ some last
    → set? array n x ≡ some swapped
    → set? swapped i last ≡ some result
    → remove_sub i (record { array = array; len = suc n })
      ≡ some (record { array = result; len = n })
unfolding remove_sub
remove_sub_swaps i n array swapped result x last h g l w v =
    let e : suc n - 1 ≡ n = omega arith in
    let l' : get_elem? array (suc n - 1) ≡ some last =
      subst (λ k. get_elem? array k ≡ some last) (sym e) l in
    let w' : set? array (suc n - 1) x ≡ some swapped =
      subst (λ k. set? array k x ≡ some swapped) (sym e) w in
    ground arith

-- The last element is cut off.
remove_sub_last :
    (pre : List ConnectionSub) (x : ConnectionSub) (n : ℕ)
    → n ≡ length pre
    → remove_sub n (record { array = pre ++ x ∷ []; len = suc n })
      ≡ some (record { array = pre ++ x ∷ []; len = n })
remove_sub_last pre x n e =
    let at : get_elem? (pre ++ x ∷ []) n ≡ some x = rw e (get_elem?-append pre [] x) in
    let put : set? (pre ++ x ∷ []) n x ≡ some (pre ++ x ∷ []) = rw e (set?-append pre [] x x) in
    remove_sub_swaps n n (pre ++ x ∷ []) (pre ++ x ∷ []) (pre ++ x ∷ []) x x (omega arith) at at put
      put

-- An inner element and the last one are swapped.
remove_sub_inner :
    (pre mid : List ConnectionSub) (x y : ConnectionSub) (i n : ℕ)
    → i ≡ length pre
    → n ≡ length pre + suc (length mid)
    → remove_sub i (record { array = pre ++ x ∷ (mid ++ y ∷ []); len = suc n })
      ≡ some (record { array = pre ++ y ∷ (mid ++ x ∷ []); len = n })
remove_sub_inner pre mid x y i n ei en =
    remove_sub_swaps i n _ (pre ++ x ∷ (mid ++ x ∷ [])) _ x y (omega arith)
      (rw ei (get_elem?-append pre (mid ++ y ∷ []) x))
      (rw (long, ← append_assoc pre (x ∷ mid) (y ∷ [])) (get_elem?-append (pre ++ x ∷ mid) [] y))
      (rw (long, ← append_assoc pre (x ∷ mid) (y ∷ []))
        (set?-append (pre ++ x ∷ mid) [] y x ∙ ap some (append_assoc pre (x ∷ mid) (x ∷ []))))
      (rw ei (set?-append pre (mid ++ x ∷ []) x y))
  where
    long : n ≡ length (pre ++ x ∷ mid)
    long = omega (arith, length-append pre (x ∷ mid))

-- The method by what its loop does.
removing :
    (ch : Channel) (sub : Subscription) (subs : List ConnectionSub) (n : ℕ) (r : Option Slice)
    → ch.broker_subs ≡ subs
    → length subs ≡ n
    → remove_sub_loop sub.id n 0 (record { array = subs; len = n }) ≡ r
    → remove_broker_subscription sub ch
      ≡ elim r [ none ↦ none | some t ↦ some (record ch { broker_subs = take t.len t.array }) ]
unfolding remove_broker_subscription
removing ch sub subs n r e l f =
    ap
      (λ (q : Option Slice). elim q [
        | none ↦ none
        | some t ↦ some (record ch { broker_subs = take t.len t.array })
      ])
      (ap (λ b. remove_sub_loop sub.id (length b) 0 (record { array = b; len = length b })) e
        ∙ ap (λ k. remove_sub_loop sub.id k 0 (record { array = subs; len = k })) l
        ∙ f)

-- Removing a subscription that is not the last one panics: `removeSub` swaps it to the end of
-- the array, where the loop, whose range was fixed before, meets it again behind the new length.
-- (The other subscriptions have other ids.)
pub remove_broker_subscription_panics :
    (ch : Channel) (sub : Subscription) (pre mid : List ConnectionSub) (x y : ConnectionSub)
    → ch.broker_subs ≡ pre ++ x ∷ (mid ++ y ∷ [])
    → All (IsOther sub.id) pre
    → (sub.id == x.s.id) ≡ true
    → All (IsOther sub.id) mid
    → remove_broker_subscription sub ch ≡ none
unfolding remove_broker_subscription
remove_broker_subscription_panics ch sub pre mid x y e v hit w =
    let n = length pre + suc (length mid) in
    let long : length (pre ++ x ∷ (mid ++ y ∷ [])) ≡ suc n =
      omega (arith, length-append pre (x ∷ (mid ++ y ∷ [])), length-append mid (y ∷ [])) in
    let swapped : Slice = record { array = pre ++ y ∷ (mid ++ x ∷ []); len = n } in
    let start : Slice = record { array = pre ++ x ∷ (mid ++ y ∷ []); len = suc n } in
    let behind : suc (0 + length pre) + length mid ≡ length (pre ++ y ∷ mid) =
      omega (arith, length-append pre (y ∷ mid)) in
    let faults : remove_sub_loop sub.id (suc n) 0 start ≡ none =
      remove_sub_loop-others sub.id (suc (length mid + 1)) (suc n) 0 start [] pre
        (x ∷ (mid ++ y ∷ [])) (omega arith) refl refl v
      ∙ remove_sub_loop_hit sub.id (length mid + 1) (0 + length pre) start x
          (rw zero-add (get_elem?-append pre (mid ++ y ∷ []) x)) hit
      ∙ rw (remove_sub_inner pre mid x y (0 + length pre) n (omega arith) refl) (
          remove_sub_loop-others sub.id 1 (length mid + 1) (suc (0 + length pre)) swapped
            (pre ++ y ∷ []) mid (x ∷ []) refl (omega (arith, length-append pre (y ∷ [])))
            (sym (append_assoc pre (y ∷ []) (mid ++ x ∷ []))) w
          ∙ remove_sub_loop_hit sub.id 0 (suc (0 + length pre) + length mid) swapped x
              (rw (behind, ← append_assoc pre (y ∷ mid) (x ∷ []))
                (get_elem?-append (pre ++ y ∷ mid) [] x))
              hit
          ∙ rw (remove_sub_out (suc (0 + length pre) + length mid) swapped (omega arith))) in
    removing ch sub _ (suc n) none e long faults

-- Removing the last subscription takes off that one.
remove_broker_subscription_last :
    (ch : Channel) (sub : Subscription) (pre : List ConnectionSub) (x : ConnectionSub)
    → ch.broker_subs ≡ pre ++ x ∷ []
    → All (IsOther sub.id) pre
    → (sub.id == x.s.id) ≡ true
    → remove_broker_subscription sub ch ≡ some (record ch { broker_subs = pre })
unfolding remove_broker_subscription
remove_broker_subscription_last ch sub pre x e v hit =
    let long : length (pre ++ x ∷ []) ≡ suc (length pre) =
      omega (arith, length-append pre (x ∷ [])) in
    let start : Slice = record { array = pre ++ x ∷ []; len = suc (length pre) } in
    let cut : remove_sub_loop sub.id (suc (length pre)) 0 start
        ≡ some (record { array = pre ++ x ∷ []; len = length pre }) =
      remove_sub_loop-others sub.id 1 (suc (length pre)) 0 start [] pre (x ∷ []) (omega arith) refl
        refl v
      ∙ remove_sub_loop_hit sub.id 0 (0 + length pre) start x
          (rw zero-add (get_elem?-append pre [] x)) hit
      ∙ rw (zero-add, remove_sub_last pre x (length pre) refl) (unfold remove_sub_loop in refl) in
    removing ch sub _ (suc (length pre)) _ e long cut ∙ rw (take-append pre (x ∷ []))
