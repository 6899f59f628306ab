-- ===== src/Execution/Router/Cells.antt =====
-- A list of reservations as a change of one cell of the inventory, and its undoing.
use crypto_arb_engine.Prelude.{
  ◌≡◌, refl, sym, ◌∙◌, ap, Bool, true, false, List, [], ◌∷◌, ◌++◌, String, Bool-cases, inl, inr,
  if◌then◌else◌, All,
}
use crypto_arb_engine.Prelude.Dict.{pair_key}
use crypto_arb_engine.Float.{
  Float, ◌⊕◌, ◌⊖◌, nought, min, max, IsNonneg, IsOrdered, IsRounded, IsExact,
}
use crypto_arb_engine.Float.Bounds.{max_of_nonneg}
use crypto_arb_engine.Core.Types.{Reservation}
use crypto_arb_engine.Execution.Inventory.{Inventory, release, settle}
use crypto_arb_engine.Execution.Inventory.Totals.{
  cell, lock_cell, unlock_cell, spend_cell, cell-release, cell-settle,
}
use crypto_arb_engine.Execution.Router.Defs.{release_all, settle_all}

module _ {F : Type 0} ⦃f : Float F⦄ where
  abbrev pub hits : Reservation F → String × String → Bool
  hits r k = pair_key.same (r.venue_id, r.asset) k

  -- What the reservations do to the cell at `k`: lock each amount, unlock it, or spend it.
  abbrev pub locks : List (Reservation F) → String × String → F × F → F × F
  locks [] k c = c
  locks (r ∷ rs) k c = locks rs k (if hits r k then lock_cell r.amount c else c)

  abbrev pub unlocks : List (Reservation F) → String × String → F × F → F × F
  unlocks [] k c = c
  unlocks (r ∷ rs) k c = unlocks rs k (if hits r k then unlock_cell r.amount c else c)

  abbrev pub spends : List (Reservation F) → String × String → F × F → F × F
  spends [] k c = c
  spends (r ∷ rs) k c = spends rs k (if hits r k then spend_cell r.amount c else c)

  -- Only the free amount falls.
  abbrev pub pay_cell : F → F × F → F × F
  pay_cell a c = (c.0 ⊖ a, c.1)

  abbrev pub pays : List (Reservation F) → String × String → F × F → F × F
  pays [] k c = c
  pays (r ∷ rs) k c = pays rs k (if hits r k then pay_cell r.amount c else c)

  abbrev pub Amounts : List (Reservation F) → Type 0
  Amounts = All (λ r. IsNonneg r.amount)

  pub locks-append :
      (rs ss : List (Reservation F)) (k : String × String) (c : F × F)
      → locks (rs ++ ss) k c ≡ locks ss k (locks rs k c)
  locks-append [] ss k c = refl
  locks-append (r ∷ rs) ss k c = locks-append rs ss k _

  -- A change of the cell of `r` where the operation reads that very cell.
  pub same_cell :
      (r : Reservation F) (k : String × String) (g : F × F → F × F) (inv : Inventory F)
      → (if hits r k then g (cell inv (r.venue_id, r.asset)) else cell inv k)
        ≡ (if hits r k then g (cell inv k) else cell inv k)
  same_cell r k g inv = elim (Bool-cases (hits r k)) [
    | inl e ↦ rw e (
        ap (λ (j : String × String). g (cell inv j))
          ((pair_key.same_iff (r.venue_id, r.asset) k).0 e))
    | inr e ↦ rw e
  ]

  pub cell-release_all :
      (rs : List (Reservation F)) (inv : Inventory F) (k : String × String)
      → cell (release_all rs inv) k ≡ unlocks rs k (cell inv k)
  unfolding release_all
  cell-release_all [] inv k = refl
  cell-release_all (r ∷ rs) inv k =
      cell-release_all rs (release inv r.venue_id r.asset r.amount) k
      ∙ ap (unlocks rs k) (
          cell-release inv r.venue_id r.asset r.amount k ∙ same_cell r k (unlock_cell r.amount) inv)

  pub cell-settle_all :
      (rs : List (Reservation F)) (inv : Inventory F) (k : String × String)
      → cell (settle_all rs inv) k ≡ spends rs k (cell inv k)
  unfolding settle_all
  cell-settle_all [] inv k = refl
  cell-settle_all (r ∷ rs) inv k =
      cell-settle_all rs (settle inv r.venue_id r.asset r.amount) k
      ∙ ap (spends rs k)
          (cell-settle inv r.venue_id r.asset r.amount k ∙ same_cell r k (spend_cell r.amount) inv)

  module _ (ordered : IsOrdered F) (rounded : IsRounded F) (exact : IsExact F) where
    open exact use {add_comm, add_assoc, add-sub, sub-add}

    pub add_right_comm : (x a b : F) → x ⊕ a ⊕ b ≡ x ⊕ b ⊕ a
    add_right_comm x a b =
        add_assoc x a b ∙ ap (λ (y : F). x ⊕ y) (add_comm a b) ∙ sym (add_assoc x b a)

    pub sub_right_comm : (x a b : F) → x ⊖ a ⊖ b ≡ x ⊖ b ⊖ a
    sub_right_comm x a b =
        let y = x ⊖ a ⊖ b in
        let whole : y ⊕ a ⊕ b ≡ x =
          add_right_comm y a b ∙ ap (λ (z : F). z ⊕ a) (sub-add (x ⊖ a) b) ∙ sub-add x a in
        sym (add-sub y a)
        ∙ ap (λ (z : F). z ⊖ a) (sym (add-sub (y ⊕ a) b) ∙ ap (λ (z : F). z ⊖ b) whole)

    lock-lock : (a b : F) (c : F × F) → lock_cell a (lock_cell b c) ≡ lock_cell b (lock_cell a c)
    lock-lock a b c = λ i. (sub_right_comm c.0 b a i, add_right_comm c.1 b a i)

    -- Each step of a list of reservations, split on whether it is about the cell.
    choose-lock :
        (b : Bool) (r a : F) (c : F × F)
        → (if b then lock_cell r (lock_cell a c) else lock_cell a c)
          ≡ lock_cell a (if b then lock_cell r c else c)
    choose-lock true r a c = lock-lock r a c
    choose-lock false r a c = refl

    -- An earlier lock can be made last.
    pub locks-lock :
        (rs : List (Reservation F)) (k : String × String) (a : F) (c : F × F)
        → locks rs k (lock_cell a c) ≡ lock_cell a (locks rs k c)
    locks-lock [] k a c = refl
    locks-lock (r ∷ rs) k a c =
        ap (locks rs k) (choose-lock (hits r k) r.amount a c)
        ∙ locks-lock rs k a (if hits r k then lock_cell r.amount c else c)

    choose-IsNonneg :
        (b : Bool) (a : F) (c : F × F)
        → IsNonneg a
        → IsNonneg c.1
        → IsNonneg ((if b then lock_cell a c else c).1)
    choose-IsNonneg true a c h n = rounded.add_nonneg c.1 a n h
    choose-IsNonneg false a c h n = n

    pub locks_locked-IsNonneg :
        (rs : List (Reservation F)) (k : String × String) (c : F × F)
        → Amounts rs
        → IsNonneg c.1
        → IsNonneg (locks rs k c).1
    locks_locked-IsNonneg [] k c h n = n
    locks_locked-IsNonneg (r ∷ rs) k c (h, hs) n =
        locks_locked-IsNonneg rs k (if hits r k then lock_cell r.amount c else c) hs
          (choose-IsNonneg (hits r k) r.amount c h n)

    -- Of a locked amount that is not negative, all of a lock can be taken back.
    min_of_lock : (a x : F) → IsNonneg x → min a (x ⊕ a) ≡ a
    unfolding min
    min_of_lock a x h = rw (add_comm x a) (rw (rounded.add_not_below a x h))

    unlock-lock : (a : F) (c : F × F) → IsNonneg c.1 → unlock_cell a (lock_cell a c) ≡ c
    unlock-lock a c h = rw (min_of_lock a c.1 h) (λ i. (sub-add c.0 a i, add-sub c.1 a i))

    spend-lock : (a : F) (c : F × F) → IsNonneg c.1 → spend_cell a (lock_cell a c) ≡ pay_cell a c
    spend-lock a c h =
        λ i. (c.0 ⊖ a, (ap (max nought) (add-sub c.1 a) ∙ max_of_nonneg ordered exact c.1 h) i)

    choose-unlock :
        (b : Bool) (r : Reservation F) (rs : List (Reservation F)) (k : String × String) (c : F × F)
        → IsNonneg (locks rs k c).1
        → (let x = locks rs k (if b then lock_cell r.amount c else c) in
            if b then unlock_cell r.amount x else x)
          ≡ locks rs k c
    choose-unlock true r rs k c n =
        ap (unlock_cell r.amount) (locks-lock rs k r.amount c)
        ∙ unlock-lock r.amount (locks rs k c) n
    choose-unlock false r rs k c n = refl

    pub unlocks-locks :
        (rs : List (Reservation F)) (k : String × String) (c : F × F)
        → Amounts rs
        → IsNonneg c.1
        → unlocks rs k (locks rs k c) ≡ c
    unlocks-locks [] k c h n = refl
    unlocks-locks (r ∷ rs) k c (h, hs) n =
        ap (unlocks rs k) (choose-unlock (hits r k) r rs k c (locks_locked-IsNonneg rs k c hs n))
        ∙ unlocks-locks rs k c hs n

    choose-pay :
        (b : Bool) (r a : F) (c : F × F)
        → (if b then pay_cell r (pay_cell a c) else pay_cell a c)
          ≡ pay_cell a (if b then pay_cell r c else c)
    choose-pay true r a c = λ i. (sub_right_comm c.0 a r i, c.1)
    choose-pay false r a c = refl

    pays-pay :
        (rs : List (Reservation F)) (k : String × String) (a : F) (c : F × F)
        → pays rs k (pay_cell a c) ≡ pay_cell a (pays rs k c)
    pays-pay [] k a c = refl
    pays-pay (r ∷ rs) k a c =
        ap (pays rs k) (choose-pay (hits r k) r.amount a c)
        ∙ pays-pay rs k a (if hits r k then pay_cell r.amount c else c)

    choose-spend :
        (b : Bool) (r a : F) (c : F × F)
        → (if b then spend_cell r (pay_cell a c) else pay_cell a c)
          ≡ pay_cell a (if b then spend_cell r c else c)
    choose-spend true r a c = refl
    choose-spend false r a c = refl

    spends-pay :
        (rs : List (Reservation F)) (k : String × String) (a : F) (c : F × F)
        → spends rs k (pay_cell a c) ≡ pay_cell a (spends rs k c)
    spends-pay [] k a c = refl
    spends-pay (r ∷ rs) k a c =
        ap (spends rs k) (choose-spend (hits r k) r.amount a c)
        ∙ spends-pay rs k a (if hits r k then spend_cell r.amount c else c)

    choose-spends :
        (b : Bool) (r : Reservation F) (rs : List (Reservation F)) (k : String × String) (c : F × F)
        → IsNonneg (locks rs k c).1
        → spends rs k (locks rs k c) ≡ pays rs k c
        → spends rs k (
            let x = locks rs k (if b then lock_cell r.amount c else c) in
            if b then spend_cell r.amount x else x)
          ≡ pays rs k (if b then pay_cell r.amount c else c)
    choose-spends true r rs k c n ih =
        ap (λ (x : F × F). spends rs k (spend_cell r.amount x)) (locks-lock rs k r.amount c)
        ∙ ap (spends rs k) (spend-lock r.amount (locks rs k c) n)
        ∙ spends-pay rs k r.amount (locks rs k c)
        ∙ ap (pay_cell r.amount) ih
        ∙ sym (pays-pay rs k r.amount c)
    choose-spends false r rs k c n ih = ih

    -- Spending what was locked leaves the lock's cost, and the locked amount as before.
    pub spends-locks :
        (rs : List (Reservation F)) (k : String × String) (c : F × F)
        → Amounts rs
        → IsNonneg c.1
        → spends rs k (locks rs k c) ≡ pays rs k c
    spends-locks [] k c h n = refl
    spends-locks (r ∷ rs) k c (h, hs) n =
        choose-spends (hits r k) r rs k c (locks_locked-IsNonneg rs k c hs n)
          (spends-locks rs k c hs n)
