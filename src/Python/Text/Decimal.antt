-- ===== src/Python/Text/Decimal.antt =====
-- The fuel of `decimal` is enough.
use context_control_plane.Base.{
  ℕ, zero, suc, ◌+◌, ◌/◌, ◌%◌, ◌<◌, String, ◌<>◌, ◌≡◌, refl, inl, inr, arith, ltb, Bool-cases,
}
use context_control_plane.Python.Text.{digit_text, decimal_loop, decimal}

-- Two amounts of fuel that are both more than the number give the same digits.
decimal_loop_same :
    (f g n : ℕ) (acc : String) → n < f → n < g → decimal_loop f n acc ≡ decimal_loop g n acc
unfolding decimal_loop
decimal_loop_same zero g n acc h k = absurd (omega (arith, h))
decimal_loop_same (suc f) zero n acc h k = absurd (omega (arith, k))
decimal_loop_same (suc f) (suc g) n acc h k = elim (Bool-cases (ltb n 10)) [
  | inl small ↦ rw small refl
  | inr large ↦
      let less_f : n / 10 < f = ground (arith, large, h) in
      let less_g : n / 10 < g = ground (arith, large, k) in
      rw large (decimal_loop_same f g (n / 10) (digit_text (n % 10) <> acc) less_f less_g)
]

-- More fuel than `decimal` gives changes nothing.
decimal_more : (n extra : ℕ) → decimal_loop (suc n + extra) n "" ≡ decimal n
unfolding decimal
decimal_more n extra = decimal_loop_same (suc n + extra) (suc n) n "" (omega arith) (omega arith)
