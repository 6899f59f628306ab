-- ===== src/Prelude/Sort.antt =====
-- `sorted(xs, key=...)`: a stable sort, by insertion. `before x y` says that the key of `x` is less.
use Prim.Native.Nat.{suc}
use mathlib.Core.Path.{◌≡◌, refl, ap, ◌∙◌}
use mathlib.Core.Logic.{inl, inr}
use mathlib.Core.Bool.{Bool, true, false}
use mathlib.Core.List.{List, [], ◌∷◌, Perm}
use mathlib.Core.List.Perm
use native.Mathlib.Omega.{arith}
use crypto_arb_engine.Prelude.Tests.{if◌then◌else◌, Bool-cases}
use crypto_arb_engine.Prelude.Lists.{All, All-imp, length}

module _ {ℓ} {A : Type ℓ} (before : A → A → Bool) where
  unfoldable pub insert : A → List A → List A
  insert x [] = x ∷ []
  insert x (y ∷ ys) = let rest = insert x ys in if before y x then y ∷ rest else x ∷ (y ∷ ys)

  unfoldable pub sort : List A → List A
  unfolding insert
  sort [] = []
  sort (x ∷ xs) = insert x (sort xs)

  insert-perm : (x : A) (ys : List A) → Perm (insert x ys) (x ∷ ys)
  unfolding insert
  insert-perm x [] = Perm.refl _
  insert-perm x (y ∷ ys) = elim (Bool-cases (before y x)) [
    | inl e ↦ rw e (Perm.trans (Perm.cons y (insert-perm x ys)) (Perm.swap x y ys))
    | inr e ↦ rw e (Perm.refl _)
  ]

  -- Sorting rearranges: nothing is lost, and nothing is added.
  pub sort-perm : (xs : List A) → Perm (sort xs) xs
  unfolding sort
  sort-perm [] = Perm.refl _
  sort-perm (x ∷ xs) = Perm.trans (insert-perm x (sort xs)) (Perm.cons x (sort-perm xs))

  length-insert : (x : A) (ys : List A) → length (insert x ys) ≡ suc (length ys)
  unfolding insert
  length-insert x [] = refl
  length-insert x (y ∷ ys) = ground (arith, length-insert x ys)

  pub length-sort : (xs : List A) → length (sort xs) ≡ length xs
  unfolding sort
  length-sort [] = refl
  length-sort (x ∷ xs) = length-insert x (sort xs) ∙ ap suc (length-sort xs)

  module _ {κ} (P : A → Type κ) where
    pub insert-All : (x : A) (ys : List A) → P x → All P ys → All P (insert x ys)
    unfolding insert
    insert-All x [] p ps = (p, ps)
    insert-All x (y ∷ ys) p (q, qs) = elim (Bool-cases (before y x)) [
      | inl e ↦ rw e (q, insert-All x ys p qs)
      | inr e ↦ rw e (p, (q, qs))
    ]

    pub sort-All : (xs : List A) → All P xs → All P (sort xs)
    unfolding sort
    sort-All [] h = tt
    sort-All (x ∷ xs) (p, ps) = insert-All x (sort xs) p (sort-All xs ps)

  -- No later element should stand before an earlier one.
  abbrev pub IsSorted : List A → Type 0
  IsSorted [] = Unit
  IsSorted (x ∷ xs) = All (λ y. before y x ≡ false) xs × IsSorted xs

  -- What the sort needs of the order, at elements that satisfy `N`.
  module _ {κ} (N : A → Type κ) (asym : (x y : A) → before x y ≡ true → before y x ≡ false)
      (weak : (x y z : A)
        → N y
        → before x y ≡ false
        → before y z ≡ false
        → before x z ≡ false) where
    insert-IsSorted : (x : A) (ys : List A) → N x → All N ys → IsSorted ys → IsSorted (insert x ys)
    unfolding insert
    insert-IsSorted x [] nx ns s = (tt, tt)
    insert-IsSorted x (y ∷ ys) nx (ny, ns) (s, ss) = elim (Bool-cases (before y x)) [
      | inl e ↦
          rw e (
            insert-All (λ z. before z y ≡ false) x ys (asym y x e) s,
            insert-IsSorted x ys nx ns ss,
          )
      | inr e ↦ rw e ((e, All-imp ys (λ z h. weak z y x ny h e) s), (s, ss))
    ]

    pub sort-IsSorted : (xs : List A) → All N xs → IsSorted (sort xs)
    unfolding sort
    sort-IsSorted [] h = tt
    sort-IsSorted (x ∷ xs) (n, ns) =
        insert-IsSorted x (sort xs) n (sort-All N xs ns) (sort-IsSorted xs ns)
