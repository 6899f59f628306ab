-- ===== src/Execution/Inventory/Totals.antt =====
-- What each operation does to the free and the locked amount of every key.
use crypto_arb_engine.Prelude.{◌≡◌, true, false, String, Bool-cases, inl, inr, arith, if◌then◌else◌}
use crypto_arb_engine.Prelude.Dict.{pair_key, string_key, set, lookup-set}
use crypto_arb_engine.Float.{Float, ◌⊕◌, ◌⊖◌, ◌<?◌, ◌≤?◌, nought, min, max}
use crypto_arb_engine.Core.Types.{Balance}
use crypto_arb_engine.Execution.Inventory.Defs.{
  Inventory, get_balance, reserve, release, settle, credit,
}

module _ {F : Type 0} ⦃f : Float F⦄ where
  -- The free and the locked amount at a venue and an asset.
  unfoldable pub cell : Inventory F → String × String → F × F
  cell inv k = let b = get_balance inv k.0 k.1 in (b.free, b.locked)

  -- The effect of an operation on one cell.
  abbrev pub lock_cell : F → F × F → F × F
  lock_cell a c = (c.0 ⊖ a, c.1 ⊕ a)

  abbrev pub unlock_cell : F → F × F → F × F
  unlock_cell a c = (c.0 ⊕ min a c.1, c.1 ⊖ min a c.1)

  abbrev pub spend_cell : F → F × F → F × F
  spend_cell a c = (c.0, max nought (c.1 ⊖ a))

  abbrev pub credit_cell : F → F × F → F × F
  credit_cell a c = if a ≤? nought then c else (c.0 ⊕ a, c.1)

  get_balance-set :
      (v s : String) (k : String × String) (b : Balance F) (inv : Inventory F)
      → cell (set (v, s) b inv) k
        ≡ (if pair_key.same (v, s) k then (b.free, b.locked) else cell inv k)
  unfolding get_balance cell
  get_balance-set v s k b inv = rw (lookup-set (v, s) k b inv) (ground arith)

  pub cell-reserve :
      (inv : Inventory F) (v s : String) (a : F) (k : String × String)
      → (reserve inv v s a).1 ≡ true
      → cell (reserve inv v s a).0 k
        ≡ (if pair_key.same (v, s) k then lock_cell a (cell inv (v, s)) else cell inv k)
  unfolding reserve cell
  cell-reserve inv v s a k h = elim (Bool-cases ((get_balance inv v s).free <? a)) [
    | inl e ↦ cc (rw e at h)
    | inr e ↦ rw e (get_balance-set v s k _ inv)
  ]

  -- A refused reservation changes nothing.
  pub reserve_refused :
      (inv : Inventory F) (v s : String) (a : F)
      → (reserve inv v s a).1 ≡ false
      → (reserve inv v s a).0 ≡ inv
  unfolding reserve cell
  reserve_refused inv v s a h = ground arith

  pub cell-release :
      (inv : Inventory F) (v s : String) (a : F) (k : String × String)
      → cell (release inv v s a) k
        ≡ (if pair_key.same (v, s) k then unlock_cell a (cell inv (v, s)) else cell inv k)
  unfolding release cell
  cell-release inv v s a k = get_balance-set v s k _ inv

  pub cell-settle :
      (inv : Inventory F) (v s : String) (a : F) (k : String × String)
      → cell (settle inv v s a) k
        ≡ (if pair_key.same (v, s) k then spend_cell a (cell inv (v, s)) else cell inv k)
  unfolding settle cell
  cell-settle inv v s a k = get_balance-set v s k _ inv

  pub cell-credit :
      (inv : Inventory F) (v s : String) (a : F) (k : String × String)
      → cell (credit inv v s a) k
        ≡ (if pair_key.same (v, s) k then credit_cell a (cell inv (v, s)) else cell inv k)
  unfolding credit cell
  cell-credit inv v s a k = elim (Bool-cases (a ≤? nought)) [
    | inl e ↦ rw e (ground (arith, pair_key.same_iff (v, s) k))
    | inr e ↦ rw e (get_balance-set v s k _ inv)
  ]
