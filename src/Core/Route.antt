-- ===== src/Core/Route.antt =====
-- Venue, symbol and side of a leg, as the keys by which trades are compared.
use Prim.Native.String.{compare}
use Prim.Native.Nat.{Ordering}
use crypto_arb_engine.Prelude.{
  ◌≡◌, ◌↔◌, Bool, true, false, List, [], ◌∷◌, String, ◌&&◌, ◌||◌, arith,
}
use crypto_arb_engine.Prelude.Dict.{Key, string_key}
use crypto_arb_engine.Core.Types.{Side}

-- The sides as the code spells them.
abbrev pub side_text : Side → String
side_text Side.buy = "buy"
side_text Side.sell = "sell"
side_text Side.transfer = "transfer"

-- Venue, symbol and side of a leg.
abbrev pub Stop : Type 0
Stop = String × String × String

abbrev pub same_stop : Stop → Stop → Bool
same_stop (a, b, c) (x, y, z) = string_key.same a x && (string_key.same b y && string_key.same c z)

abbrev pub same_route : List Stop → List Stop → Bool
same_route [] [] = true
same_route [] (y ∷ ys) = false
same_route (x ∷ xs) [] = false
same_route (x ∷ xs) (y ∷ ys) = same_stop x y && same_route xs ys

pub same_route_iff : (xs ys : List Stop) → (same_route xs ys ≡ true) ↔ (xs ≡ ys)
same_route_iff [] [] = ground arith
same_route_iff [] (y ∷ ys) = ground arith
same_route_iff (x ∷ xs) [] = ground arith
same_route_iff ((a, b, c) ∷ xs) ((x, y, z) ∷ ys) = ground (
  arith,
  string_key.same_iff a x,
  string_key.same_iff b y,
  string_key.same_iff c z,
  same_route_iff xs ys,
)

-- Tuples of texts compare as routes do.
instance abbrev pub route_equality : Key (List Stop)
route_equality = record { same = same_route; same_iff = same_route_iff }

-- `a < b` on texts, and on tuples of them.
abbrev pub text_before : String → String → Bool
text_before a b = elim (compare a b) [ Ordering.lt ↦ true | _ ↦ false ]

unfoldable pub stop_before : Stop → Stop → Bool
stop_before (a, b, c) (x, y, z) =
    text_before a x
    || (string_key.same a x && (text_before b y || (string_key.same b y && text_before c z)))

-- Two routes with the same set of stops.
abbrev pub has_stop : Stop → List Stop → Bool
has_stop x [] = false
has_stop x (y ∷ ys) = same_stop x y || has_stop x ys

abbrev pub all_within : List Stop → List Stop → Bool
all_within [] ys = true
all_within (x ∷ xs) ys = has_stop x ys && all_within xs ys

abbrev pub same_stops : List Stop → List Stop → Bool
same_stops xs ys = all_within xs ys && all_within ys xs
