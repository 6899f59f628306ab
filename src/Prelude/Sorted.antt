-- ===== src/Prelude/Sorted.antt =====
-- Sorting the entries of a dict: the lookups stay.
use mathlib.Core.Path.{◌≡◌, refl, ◌∙◌}
use mathlib.Core.Bool.{Bool}
use mathlib.Core.Option.{none}
use mathlib.Core.List.{[], ◌∷◌}
use native.Mathlib.Omega.{arith}
use crypto_arb_engine.Prelude.Dict.{Dict, Key, lookup, IsDict}
use crypto_arb_engine.Prelude.Sort.{insert, sort}

module _ {ℓ κ} {K : Type ℓ} {V : Type κ} ⦃e : Key K⦄ (before : K × V → K × V → Bool) where
  lookup-insert :
      (k : K) (x : K × V) (d : Dict K V)
      → lookup x.0 d ≡ none
      → lookup k (insert before x d) ≡ lookup k (x ∷ d)
  unfolding insert lookup
  lookup-insert k x [] h = refl
  lookup-insert k x (y ∷ d) h =
      ground (arith, e.same_iff x.0 k, e.same_iff y.0 k, e.same_iff y.0 x.0, lookup-insert k x d)

  insert-IsDict :
      (x : K × V) (d : Dict K V) → lookup x.0 d ≡ none → IsDict d → IsDict (insert before x d)
  unfolding insert lookup
  insert-IsDict x [] h k = (refl, tt)
  insert-IsDict x (y ∷ d) h k =
      ground
        (arith, e.same_iff x.0 y.0, e.same_iff y.0 x.0, lookup-insert y.0 x d, insert-IsDict x d)

  sort_keeps :
      (d : Dict K V)
      → IsDict d
      → ((k : K) → lookup k (sort before d) ≡ lookup k d) × IsDict (sort before d)
  unfolding sort lookup
  sort_keeps [] h = (λ k. refl, tt)
  sort_keeps (x ∷ d) (h, hs) =
      let (same_lookup, sorted) = sort_keeps d hs in
      let absent = same_lookup x.0 ∙ h in
      (
        λ k. lookup-insert k x (sort before d) absent ∙ (rw (same_lookup k)),
        insert-IsDict x (sort before d) absent sorted,
      )

  pub lookup-sort : (k : K) (d : Dict K V) → IsDict d → lookup k (sort before d) ≡ lookup k d
  lookup-sort k d h = (sort_keeps d h).0 k

  pub sort-IsDict : (d : Dict K V) → IsDict d → IsDict (sort before d)
  sort-IsDict d h = (sort_keeps d h).1
