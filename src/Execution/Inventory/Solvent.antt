-- ===== src/Execution/Inventory/Solvent.antt =====
-- No operation takes a free or a locked amount below zero.
use crypto_arb_engine.Prelude.{
  ◌≡◌, List, [], ◌∷◌, All, Bool, true, false, String, Bool-cases, inl, inr, arith, if◌then◌else◌,
}
use crypto_arb_engine.Prelude.Dict.{pair_key}
use crypto_arb_engine.Float.{Float, ◌⊖◌, ◌<?◌, ◌≤?◌, nought, min, IsNonneg, IsOrdered, IsRounded}
use crypto_arb_engine.Float.Bounds.{
  min_not_above_right, min-IsNonneg, max-IsNonneg, IsNonneg-of_not_le,
}
use crypto_arb_engine.Execution.Inventory.Defs.{Inventory, reserve, release, settle, credit}
use crypto_arb_engine.Execution.Inventory.Totals.{
  cell, lock_cell, unlock_cell, spend_cell, credit_cell, cell-reserve, reserve_refused,
  cell-release, cell-settle, cell-credit,
}

module _ {F : Type 0} ⦃f : Float F⦄ where
  abbrev pub IsSolventCell : F × F → Type 0
  IsSolventCell c = IsNonneg c.0 × IsNonneg c.1

  -- Neither the free nor the locked amount of any key is below zero.
  abbrev pub IsSolvent : Inventory F → Type 0
  IsSolvent inv = (k : String × String) → IsSolventCell (cell inv k)

  choose_solvent :
      (b : Bool) (c d : F × F)
      → IsSolventCell c
      → IsSolventCell d
      → IsSolventCell (if b then c else d)
  choose_solvent true c d h k = h
  choose_solvent false c d h k = k

  module _ (ordered : IsOrdered F) (rounded : IsRounded F) where
    -- Reserving keeps every balance at zero or above, whether or not it succeeds.
    pub reserve-IsSolvent :
        (inv : Inventory F) (v s : String) (a : F)
        → IsNonneg a
        → IsSolvent inv
        → IsSolvent (reserve inv v s a).0
    reserve-IsSolvent inv v s a ha h k = elim (Bool-cases (reserve inv v s a).1) [
      | inl e ↦ rw (cell-reserve inv v s a k e) (
          choose_solvent (pair_key.same (v, s) k) (lock_cell a (cell inv (v, s))) (cell inv k)
            (rounded.sub_nonneg _ a (accepted e), rounded.add_nonneg _ a (h (v, s)).1 ha) (h k))
      | inr e ↦ rw (reserve_refused inv v s a e) (h k)
    ]
      where
        accepted : (reserve inv v s a).1 ≡ true → (cell inv (v, s)).0 <? a ≡ false
        accepted e = unfold reserve cell in ground arith

    pub release-IsSolvent :
        (inv : Inventory F) (v s : String) (a : F)
        → IsNonneg a
        → IsSolvent inv
        → IsSolvent (release inv v s a)
    release-IsSolvent inv v s a ha h k =
        let c = cell inv (v, s) in
        rw (cell-release inv v s a k) (
          choose_solvent (pair_key.same (v, s) k) (unlock_cell a c) (cell inv k)
            (
              rounded.add_nonneg c.0 (min a c.1) (h (v, s)).0
                  (min-IsNonneg ordered a c.1 ha (h (v, s)).1),
              rounded.sub_nonneg c.1 (min a c.1) (min_not_above_right ordered a c.1),
            )
            (h k))

    pub settle-IsSolvent :
        (inv : Inventory F) (v s : String) (a : F) → IsSolvent inv → IsSolvent (settle inv v s a)
    settle-IsSolvent inv v s a h k =
        let c = cell inv (v, s) in
        rw (cell-settle inv v s a k) (
          choose_solvent (pair_key.same (v, s) k) (spend_cell a c) (cell inv k)
            ((h (v, s)).0, max-IsNonneg ordered (c.1 ⊖ a)) (h k))

    pub credit-IsSolvent :
        (inv : Inventory F) (v s : String) (a : F) → IsSolvent inv → IsSolvent (credit inv v s a)
    credit-IsSolvent inv v s a h k =
        let c = cell inv (v, s) in
        rw (cell-credit inv v s a k) (
          choose_solvent (pair_key.same (v, s) k) (credit_cell a c) (cell inv k)
            (elim (Bool-cases (a ≤? nought)) [
              | inl e ↦ rw e (h (v, s))
              | inr e ↦ rw e (
                rounded.add_nonneg c.0 a (h (v, s)).0 (IsNonneg-of_not_le ordered a e),
                (h (v, s)).1,
              )
            ])
            (h k))

-- The calls on the inventory that move an amount.
pub data Move (F : Type 0) : Type 0 where
  reserves releases settles credits : String → String → F → Move F

module _ {F : Type 0} ⦃f : Float F⦄ where
  unfoldable pub move : Move F → Inventory F → Inventory F
  move (Move.reserves v s a) inv = (reserve inv v s a).0
  move (Move.releases v s a) inv = release inv v s a
  move (Move.settles v s a) inv = settle inv v s a
  move (Move.credits v s a) inv = credit inv v s a

  unfoldable pub moves : List (Move F) → Inventory F → Inventory F
  unfolding move
  moves [] inv = inv
  moves (m ∷ ms) inv = moves ms (move m inv)

  -- Amounts that are locked or unlocked are not negative; what is settled or credited may be.
  abbrev pub IsProper : Move F → Type 0
  IsProper (Move.reserves v s a) = IsNonneg a
  IsProper (Move.releases v s a) = IsNonneg a
  IsProper (Move.settles v s a) = Unit {0}
  IsProper (Move.credits v s a) = Unit {0}

  move-IsSolvent :
      (ordered : IsOrdered F) (rounded : IsRounded F) (m : Move F) (inv : Inventory F)
      → IsProper m
      → IsSolvent inv
      → IsSolvent (move m inv)
  unfolding move
  move-IsSolvent ordered rounded (Move.reserves v s a) inv p h =
      reserve-IsSolvent ordered rounded inv v s a p h
  move-IsSolvent ordered rounded (Move.releases v s a) inv p h =
      release-IsSolvent ordered rounded inv v s a p h
  move-IsSolvent ordered rounded (Move.settles v s a) inv p h =
      settle-IsSolvent ordered rounded inv v s a h
  move-IsSolvent ordered rounded (Move.credits v s a) inv p h =
      credit-IsSolvent ordered rounded inv v s a h

  -- From an inventory in which no free and no locked amount is below zero, any sequence of
  -- reservations, refused ones included, releases, settlements and credits, where the amounts reserved
  -- and released are not negative, leads to such an inventory again. Rounding does not matter.
  pub moves-IsSolvent :
      (ordered : IsOrdered F) (rounded : IsRounded F) (ms : List (Move F)) (inv : Inventory F)
      → All IsProper ms
      → IsSolvent inv
      → IsSolvent (moves ms inv)
  unfolding moves
  moves-IsSolvent ordered rounded [] inv ps h = h
  moves-IsSolvent ordered rounded (m ∷ ms) inv (p, ps) h =
      moves-IsSolvent ordered rounded ms (move m inv) ps (move-IsSolvent ordered rounded m inv p h)
