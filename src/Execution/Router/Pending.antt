-- ===== src/Execution/Router/Pending.antt =====
-- Reservations of several opportunities at one cell: what becomes of one opportunity's leaves the
-- locks of the others as they are.
use crypto_arb_engine.Prelude.{
  ◌≡◌, refl, sym, ◌∙◌, ap, Bool, true, false, Option, none, some, List, [], ◌∷◌, ◌++◌, String,
  if◌then◌else◌, or_default, Bool-cases, inl, inr,
}
use crypto_arb_engine.Prelude.Text.{split_slash}
use crypto_arb_engine.Float.{Float, ◌⊕◌, ◌⊖◌, ◌≤?◌, nought, IsNonneg, IsOrdered, IsRounded, IsExact}
use crypto_arb_engine.Core.Types.{Leg, Reservation, Opportunity}
use crypto_arb_engine.Execution.Inventory.{Inventory}
use crypto_arb_engine.Execution.Inventory.Totals.{cell, lock_cell, credit_cell}
use crypto_arb_engine.Execution.Router.Defs.{
  settle_all, credit_legs, settle_reservations, release_unfilled, settle_fill,
}
use crypto_arb_engine.Execution.Router.Cells.{
  hits, locks, unlocks, spends, pay_cell, pays, Amounts, locks-append, cell-release_all,
  cell-settle_all, locks-lock, locks_locked-IsNonneg, unlocks-locks, spends-locks, sub_right_comm,
  add_right_comm,
}
use crypto_arb_engine.Execution.Router.Settle.{received, gain_one, gains, cell-credit_legs}

module _ {F : Type 0} ⦃f : Float F⦄ where
  choose_pay_locked : (b : Bool) (a : F) (c : F × F) → (if b then pay_cell a c else c).1 ≡ c.1
  choose_pay_locked true a c = refl
  choose_pay_locked false a c = refl

  pays_locked :
      (rs : List (Reservation F)) (k : String × String) (c : F × F) → (pays rs k c).1 ≡ c.1
  pays_locked [] k c = refl
  pays_locked (r ∷ rs) k c =
      pays_locked rs k (if hits r k then pay_cell r.amount c else c)
      ∙ choose_pay_locked (hits r k) r.amount c

  choose_credit_locked : (b : Bool) (a : F) (c : F × F) → (if b then credit_cell a c else c).1 ≡ c.1
  choose_credit_locked true a c = elim (Bool-cases (a ≤? nought)) [
    | inl e ↦ rw e refl
    | inr e ↦ rw e refl
  ]
  choose_credit_locked false a c = refl

  gain_one_locked :
      (r : Option (Reservation F)) (k : String × String) (c : F × F) → (gain_one r k c).1 ≡ c.1
  gain_one_locked none k c = refl
  gain_one_locked (some r) k c = choose_credit_locked (hits r k) r.amount c

  gains_locked : (legs : List (Leg F)) (k : String × String) (c : F × F) → (gains legs k c).1 ≡ c.1
  gains_locked [] k c = refl
  gains_locked (leg ∷ legs) k c =
      gains_locked legs k (gain_one (received (split_slash leg.symbol) leg) k c)
      ∙ gain_one_locked (received (split_slash leg.symbol) leg) k c

  -- A change of a cell that can come before or after a lock.
  abbrev Passes : (F × F → F × F) → Type 0
  Passes g = (a : F) (c : F × F) → g (lock_cell a c) ≡ lock_cell a (g c)

  choose_passes :
      (g : F × F → F × F) (b : Bool) (a : F) (c : F × F)
      → Passes g
      → g (if b then lock_cell a c else c) ≡ (if b then lock_cell a (g c) else g c)
  choose_passes g true a c h = h a c
  choose_passes g false a c h = refl

  -- Such a change can come before or after a list of locks.
  passes-locks :
      (g : F × F → F × F) (rs : List (Reservation F)) (k : String × String) (c : F × F)
      → Passes g
      → g (locks rs k c) ≡ locks rs k (g c)
  passes-locks g [] k c h = refl
  passes-locks g (r ∷ rs) k c h =
      passes-locks g rs k (if hits r k then lock_cell r.amount c else c) h
      ∙ ap (locks rs k) (choose_passes g (hits r k) r.amount c h)

  module _ (ordered : IsOrdered F) (rounded : IsRounded F) (exact : IsExact F) where
    open exact use {add-sub, sub-add}

    sub_add_comm : (x a b : F) → x ⊖ a ⊕ b ≡ x ⊕ b ⊖ a
    sub_add_comm x a b =
        let y = x ⊖ a in
        sym (add-sub (y ⊕ b) a)
        ∙ ap (λ (z : F). z ⊖ a)
            (add_right_comm ordered rounded exact y b a ∙ ap (λ (z : F). z ⊕ b) (sub-add x a))

    choose_pay-Passes : (b : Bool) (r : F) → Passes (λ c. if b then pay_cell r c else c)
    choose_pay-Passes true r a c = λ i. (sub_right_comm ordered rounded exact c.0 a r i, c.1 ⊕ a)
    choose_pay-Passes false r a c = refl

    pays-Passes : (rs : List (Reservation F)) (k : String × String) → Passes (pays rs k)
    pays-Passes [] k a c = refl
    pays-Passes (r ∷ rs) k a c =
        ap (pays rs k) (choose_pay-Passes (hits r k) r.amount a c)
        ∙ pays-Passes rs k a (if hits r k then pay_cell r.amount c else c)

    choose_credit-Passes : (b : Bool) (r : F) → Passes (λ c. if b then credit_cell r c else c)
    choose_credit-Passes true r a c = elim (Bool-cases (r ≤? nought)) [
      | inl e ↦ rw e refl
      | inr e ↦ rw e (λ i. (sub_add_comm c.0 a r i, c.1 ⊕ a))
    ]
    choose_credit-Passes false r a c = refl

    gain_one-Passes : (r : Option (Reservation F)) (k : String × String) → Passes (gain_one r k)
    gain_one-Passes none k a c = refl
    gain_one-Passes (some r) k a c = choose_credit-Passes (hits r k) r.amount a c

    gains-Passes : (legs : List (Leg F)) (k : String × String) → Passes (gains legs k)
    gains-Passes [] k a c = refl
    gains-Passes (leg ∷ legs) k a c =
        let g = gain_one (received (split_slash leg.symbol) leg) k in
        ap (gains legs k) (gain_one-Passes (received (split_slash leg.symbol) leg) k a c)
        ∙ gains-Passes legs k a (g c)

    locks_swap :
        (rs ss : List (Reservation F)) (k : String × String) (c : F × F)
        → locks (rs ++ ss) k c ≡ locks rs k (locks ss k c)
    locks_swap rs ss k c =
        locks-append rs ss k c
        ∙ sym (passes-locks (locks rs k) ss k c (locks-lock ordered rounded exact rs k))

    -- Giving up the first reservations of a list leaves the locks of the others.
    pub release_pending :
        (inv : Inventory F) (o : Opportunity F) (ss : List (Reservation F)) (k : String × String)
        (c : F × F)
        → let rs = or_default [] o.reservations in
          Amounts rs
          → Amounts ss
          → IsNonneg c.1
          → cell inv k ≡ locks (rs ++ ss) k c
          → cell (release_unfilled inv o).0 k ≡ locks ss k c
    unfolding release_unfilled
    release_pending inv o ss k c hr hs n e =
        let rs = or_default [] o.reservations in
        cell-release_all rs inv k
        ∙ ap (unlocks rs k) (e ∙ locks_swap rs ss k c)
        ∙ unlocks-locks ordered rounded exact rs k (locks ss k c) hr
            (locks_locked-IsNonneg ordered rounded exact ss k c hs n)

    settle_pending_cell :
        (rs ss : List (Reservation F)) (legs : List (Leg F)) (inv : Inventory F)
        (k : String × String) (c : F × F)
        → Amounts rs
        → Amounts ss
        → IsNonneg c.1
        → cell inv k ≡ locks (rs ++ ss) k c
        → cell (credit_legs legs (settle_all rs inv)) k ≡ locks ss k (gains legs k (pays rs k c))
    settle_pending_cell rs ss legs inv k c hr hs n e =
        cell-credit_legs legs (settle_all rs inv) k
        ∙ ap (gains legs k) (
            cell-settle_all rs inv k
            ∙ ap (spends rs k) (e ∙ locks_swap rs ss k c)
            ∙ spends-locks ordered rounded exact rs k (locks ss k c) hr
                (locks_locked-IsNonneg ordered rounded exact ss k c hs n)
            ∙ passes-locks (pays rs k) ss k c (pays-Passes rs k))
        ∙ passes-locks (gains legs k) ss k (pays rs k c) (gains-Passes legs k)

    settle_reservations_pending :
        (rs ss : List (Reservation F)) (legs : List (Leg F)) (inv : Inventory F)
        (k : String × String) (c : F × F)
        → Amounts rs
        → Amounts ss
        → IsNonneg c.1
        → cell inv k ≡ locks (rs ++ ss) k c
        → (d : F × F) × (d.1 ≡ c.1) × (cell (settle_reservations rs legs inv) k ≡ locks ss k d)
    settle_reservations_pending [] ss legs inv k c hr hs n e = (c, refl, e)
    settle_reservations_pending (r ∷ rs) ss legs inv k c hr hs n e = (
      gains legs k (pays (r ∷ rs) k c),
      gains_locked legs k (pays (r ∷ rs) k c) ∙ pays_locked (r ∷ rs) k c,
      settle_pending_cell (r ∷ rs) ss legs inv k c hr hs n e,
    )

    -- Settling the first reservations of a list leaves the locks of the others, over a cell with the
    -- same amount locked otherwise.
    pub settle_pending :
        (inv : Inventory F) (o : Opportunity F) (ss : List (Reservation F)) (k : String × String)
        (c : F × F)
        → let rs = or_default [] o.reservations in
          Amounts rs
          → Amounts ss
          → IsNonneg c.1
          → cell inv k ≡ locks (rs ++ ss) k c
          → (d : F × F) × (d.1 ≡ c.1) × (cell (settle_fill inv o).0 k ≡ locks ss k d)
    unfolding settle_fill
    settle_pending inv o ss k c hr hs n e =
        settle_reservations_pending (or_default [] o.reservations) ss o.legs inv k c hr hs n e
