-- ===== src/Prelude/Pigeonhole.antt =====
-- A list without repetitions whose elements stand in another list is not longer than it.
use Prim.Native.Nat.{suc, ◌≤◌}
use Prim.Native.String.{String}
use mathlib.Core.Path.{◌≡◌, refl}
use mathlib.Core.Bool.{false}
use mathlib.Core.List.{List, [], ◌∷◌}
use native.Mathlib.Omega.{arith}
use crypto_arb_engine.Prelude.Dict.{string_key}
use crypto_arb_engine.Prelude.Lists.{length, All, All-and, All-imp, Any}

abbrev pub Stands : List String → String → Type 0
Stands ys x = Any (λ y. y ≡ x) ys

-- No text stands twice.
abbrev pub IsDistinct : List String → Type 0
IsDistinct [] = Unit
IsDistinct (x ∷ xs) = All (λ y. string_key.same x y ≡ false) xs × IsDistinct xs

-- The list without the element at that place.
abbrev without : {x : String} (ys : List String) → Stands ys x → List String
without [] a = []
without (y ∷ ys) (Any.here h) = ys
without (y ∷ ys) (Any.there a) = y ∷ without ys a

length-without :
    {x : String} (ys : List String) (a : Stands ys x) → suc (length (without ys a)) ≡ length ys
length-without [] a = elim a [ ]
length-without (y ∷ ys) (Any.here h) = refl
length-without (y ∷ ys) (Any.there a) = omega (arith, length-without ys a)

Stands-without :
    {x : String} (z : String) (ys : List String) (a : Stands ys x)
    → string_key.same x z ≡ false
    → Stands ys z
    → Stands (without ys a) z
Stands-without z [] a n b = elim b [ ]
Stands-without {x} z (y ∷ ys) (Any.here h) n (Any.here k) =
    ground (arith, string_key.same_iff x z, k, h)
Stands-without z (y ∷ ys) (Any.here h) n (Any.there b) = b
Stands-without z (y ∷ ys) (Any.there a) n (Any.here k) = Any.here k
Stands-without z (y ∷ ys) (Any.there a) n (Any.there b) = Any.there (Stands-without z ys a n b)

pub length-IsDistinct :
    (xs ys : List String) → IsDistinct xs → All (Stands ys) xs → length xs ≤ length ys
length-IsDistinct [] ys d h = omega arith
length-IsDistinct (x ∷ xs) ys (d, ds) (a, as') = omega (
  arith,
  length-without ys a,
  length-IsDistinct xs (without ys a) ds (
      All-imp xs (λ z p. Stands-without z ys a p.0 p.1)
        (All-and (λ y. string_key.same x y ≡ false) (Stands ys) xs d as')),
)
