-- ===== src/Float/Ints.antt =====
-- The interface met by whole numbers, with which the theorems are run at concrete inputs: sums,
-- differences and products are exact, and quotients are cut towards zero.
use crypto_arb_engine.Prelude.{
  ℕ, ◌+◌, ◌/◌, ◌^◌, ◌≡◌, refl, Bool, true, arith, ◌==◌, if◌then◌else◌, ◌↔◌,
}
use crypto_arb_engine.Prelude.Int.{
  ℤ, pos, negsuc, pos_part, neg_part, sub_ℕ, ◌+ℤ◌, ◌-ℤ◌, ◌*ℤ◌, ltb_ℤ, int_laws,
}
use crypto_arb_engine.Prelude.Dict.{Key}
use crypto_arb_engine.Float.Ops.{Float, ◌⊗◌, ◌⊘◌, IsNonneg}
use crypto_arb_engine.Float.Laws.{IsOrdered, IsRounded, IsExact}

abbrev pub eqb_ℤ : ℤ → ℤ → Bool
eqb_ℤ a b = pos_part a + neg_part b == pos_part b + neg_part a

pub eqb_ℤ_iff : (a b : ℤ) → (eqb_ℤ a b ≡ true) ↔ (a ≡ b)
eqb_ℤ_iff a b = ground arith

abbrev pub neg_ℤ : ℤ → ℤ
neg_ℤ a = sub_ℕ (neg_part a) (pos_part a)

abbrev magnitude : ℤ → ℕ
magnitude a = pos_part a + neg_part a

unfoldable pub ◌/ℤ◌ : ℤ → ℤ → ℤ

infixl 70 ◌/ℤ◌
a /ℤ b =
    if (ltb_ℤ a (pos 0))
    then (if ltb_ℤ b (pos 0)
        then pos (magnitude a / magnitude b)
        else sub_ℕ 0 (magnitude a / magnitude b))
    else (if ltb_ℤ b (pos 0)
        then sub_ℕ 0 (magnitude a / magnitude b)
        else pos (magnitude a / magnitude b))

instance abbrev pub int_float : Float ℤ
int_float = record {
  nought = pos 0;
  inf = pos (10 ^ 30);
  lit = λ m k. pos (m / 10 ^ k);
  add = ◌+ℤ◌;
  sub = ◌-ℤ◌;
  mul = ◌*ℤ◌;
  div = ◌/ℤ◌;
  neg = neg_ℤ;
  lt = ltb_ℤ;
  eq = eqb_ℤ;
}

pub int-IsOrdered : IsOrdered ℤ
int-IsOrdered = record {
  lt_irrefl = λ x. ground arith;
  lt_trans = λ x y z h k. ground arith;
  lt_weak = λ x y z n h k. ground arith;
  lt_asym = λ x y h. ground arith;
  lt_connected = λ x y n m h k. ground arith;
  eq_not_lt = λ x y h. ground arith;
  eq_not_gt = λ x y h. ground arith;
  eq_lt = λ x y z h k. ground arith;
  nought_num = refl;
  neg_lt = λ x y. ground arith;
  neg_num = λ x h. ground arith;
}

mul_ℤ-IsNonneg : (x y : ℤ) → IsNonneg x → IsNonneg y → IsNonneg (x ⊗ y)
unfolding ◌*ℤ◌
mul_ℤ-IsNonneg (pos a) (pos b) h k = ground arith
mul_ℤ-IsNonneg (negsuc a) y h k = ground arith
mul_ℤ-IsNonneg x (negsuc b) h k = ground arith

div_ℤ-IsNonneg : (x y : ℤ) → IsNonneg x → IsNonneg y → IsNonneg (x ⊘ y)
unfolding ◌/ℤ◌
div_ℤ-IsNonneg x y h k = ground arith

pub int-IsRounded : IsRounded ℤ
unfolding ◌+ℤ◌ ◌-ℤ◌
int-IsRounded = record {
  add_nonneg = λ x y h k. ground arith;
  add_not_below = λ x y k. ground arith;
  sub_nonneg = λ x y h. ground arith;
  mul_nonneg = mul_ℤ-IsNonneg;
  div_nonneg = div_ℤ-IsNonneg;
}

pub int-IsExact : IsExact ℤ
int-IsExact = record {
  add_comm = λ x y. omega int_laws;
  add_assoc = λ x y z. omega int_laws;
  add_nought = λ x. omega int_laws;
  add-sub = λ x y. omega int_laws;
  sub-add = λ x y. omega int_laws;
  num = λ x. ground arith;
  eq_same = λ x y h. ground arith;
}

instance abbrev pub int_key : Key ℤ
int_key = record { same = eqb_ℤ; same_iff = eqb_ℤ_iff }
