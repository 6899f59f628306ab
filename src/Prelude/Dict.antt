-- ===== src/Prelude/Dict.antt =====
-- A Python dict: an association list in insertion order, over keys with a Boolean equality.
use Prim.Native.String.{String}
use text.Mathlib.Text.{◌==◌ as str_eq}
use text.Mathlib.TextEquality.{eq_iff}
use mathlib.Core.Path.{◌≡◌, refl}
use mathlib.Core.Logic.{◌↔◌}
use mathlib.Core.Bool.{Bool, true, false, ◌&&◌}
use mathlib.Core.Option.{Option, none, some}
use mathlib.Core.List.{List, [], ◌∷◌, ◌++◌, map}
use mathlib.Core.Logic.{inl, inr}
use native.Mathlib.Omega.{arith}
use crypto_arb_engine.Prelude.Tests.{if◌then◌else◌, or_default, is_some, Bool-cases}
use crypto_arb_engine.Prelude.Lists.{All, All-imp, Any}

-- Equality of hashable keys.
pub record Key {ℓ} (K : Type ℓ) : Type ℓ where
  pub same : K → K → Bool
  pub same_iff : (a b : K) → (same a b ≡ true) ↔ (a ≡ b)

instance abbrev pub string_key : Key String
string_key = record { same = str_eq; same_iff = eq_iff }

abbrev pub pair_same : String × String → String × String → Bool
pair_same p q = str_eq p.0 q.0 && str_eq p.1 q.1

pub pair_same_iff : (p q : String × String) → (pair_same p q ≡ true) ↔ (p ≡ q)
pair_same_iff (a, b) (c, d) = ground (arith, eq_iff a c, eq_iff b d)

-- Pairs of texts, such as `(venue_id, symbol)`.
instance abbrev pub pair_key : Key (String × String)
pair_key = record { same = pair_same; same_iff = pair_same_iff }

abbrev pub Dict {ℓ κ} : Type ℓ → Type κ → Type (ℓ ⊔ κ)
Dict K V = List (K × V)

pub same_refl {ℓ} : {K : Type ℓ} ⦃e : Key K⦄ (k : K) → e.same k k ≡ true
same_refl ⦃e⦄ k = (e.same_iff k k).1 refl

module _ {ℓ κ} {K : Type ℓ} {V : Type κ} ⦃e : Key K⦄ where
  open e use {same, same_iff}

  unfoldable pub lookup : K → Dict K V → Option V
  lookup k [] = none
  lookup k ((j, v) ∷ d) = if same j k then some v else lookup k d

  -- `d[k] = v`
  unfoldable pub set : K → V → Dict K V → Dict K V
  set k v [] = (k, v) ∷ []
  set k v ((j, w) ∷ d) = if same j k then (j, v) ∷ d else (j, w) ∷ set k v d

  -- `del d[k]`, and the dict that `d.pop(k, None)` leaves.
  unfoldable pub remove : K → Dict K V → Dict K V
  remove k [] = []
  remove k ((j, w) ∷ d) = let rest = remove k d in if same j k then d else (j, w) ∷ rest

  -- `d.get(k, default)`
  abbrev pub get : V → K → Dict K V → V
  get v k d = or_default v (lookup k d)

  abbrev pub contains : K → Dict K V → Bool
  contains k d = is_some (lookup k d)

  pub lookup-cons_ne :
      (k j : K) (v : V) (d : Dict K V) → same k j ≡ false → lookup j ((k, v) ∷ d) ≡ lookup j d
  unfolding lookup
  lookup-cons_ne k j v d h = rw h

  pub lookup-cons_self : (k : K) (v : V) (d : Dict K V) → lookup k ((k, v) ∷ d) ≡ some v
  unfolding lookup
  lookup-cons_self k v d = rw (same_refl k)

  pub lookup-set :
      (k j : K) (v : V) (d : Dict K V)
      → lookup j (set k v d) ≡ (if same k j then some v else lookup j d)
  unfolding lookup set
  lookup-set k j v [] = refl
  lookup-set k j v ((i, w) ∷ d) =
      ground (arith, same_iff k j, same_iff i k, same_iff i j, lookup-set k j v d)

  pub lookup-set_self : (k : K) (v : V) (d : Dict K V) → lookup k (set k v d) ≡ some v
  lookup-set_self k v d = rw (lookup-set, same_refl)

  -- No key stands twice.
  abbrev pub IsDict : Dict K V → Type κ
  IsDict [] = Unit
  IsDict ((j, v) ∷ d) = (lookup j d ≡ none) × IsDict d

  pub set-IsDict : (k : K) (v : V) (d : Dict K V) → IsDict d → IsDict (set k v d)
  unfolding lookup set
  set-IsDict k v [] h = (refl, tt)
  set-IsDict k v ((j, w) ∷ d) h =
      ground (arith, same_iff j k, same_iff k j, lookup-set k j v d, set-IsDict k v d h.1)

  pub lookup-remove :
      (k j : K) (d : Dict K V)
      → IsDict d
      → lookup j (remove k d) ≡ (if same k j then none else lookup j d)
  unfolding lookup remove
  lookup-remove k j [] h = ground arith
  lookup-remove k j ((i, w) ∷ d) h =
      ground (arith, same_iff k j, same_iff i k, same_iff i j, lookup-remove k j d h.1)

  pub remove-IsDict : (k : K) (d : Dict K V) → IsDict d → IsDict (remove k d)
  unfolding remove
  remove-IsDict k [] h = tt
  remove-IsDict k ((i, w) ∷ d) h = ground (arith, lookup-remove k i d h.1, remove-IsDict k d h.1)

  -- A new key goes to the end.
  pub set_absent :
      (k : K) (v : V) (d : Dict K V) → lookup k d ≡ none → set k v d ≡ d ++ ((k, v) ∷ [])
  unfolding lookup set
  set_absent k v [] h = refl
  set_absent k v ((j, w) ∷ d) h = ground (arith, set_absent k v d)

  -- Every entry is what a lookup finds.
  pub entries_found : (d : Dict K V) → IsDict d → All (λ p. lookup p.0 d ≡ some p.1) d
  unfolding lookup
  entries_found [] h = tt
  entries_found ((k, v) ∷ d) (new, h) = (
    lookup-cons_self k v d,
    All-imp d (λ p q. ground (arith, same_iff k p.0, q, new)) (entries_found d h),
  )

  pub contains-Any :
      (k : K) (d : Dict K V) → contains k d ≡ true → Any (λ j. j ≡ k) (map (λ p. p.0) d)
  unfolding lookup
  contains-Any k [] h = ground arith
  contains-Any k ((j, v) ∷ d) h = elim (Bool-cases (same j k)) [
    | inl q ↦ Any.here ((same_iff j k).0 q)
    | inr q ↦ Any.there (contains-Any k d (ground (arith, q, h)))
  ]
