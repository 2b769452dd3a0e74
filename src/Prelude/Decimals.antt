-- ===== src/Prelude/Decimals.antt =====
-- Numbers in decimal, as `format!` writes and `from_str` reads them.
use Prim.Native.Nat.{ℕ, zero, suc, ◌+◌, ◌-◌, ◌*◌, ◌/◌, ◌%◌, ◌<◌}
use mathlib.Core.Path.{◌≡◌, refl, ◌∙◌}
use mathlib.Core.Bool.{Bool, true, ◌&&◌}
use mathlib.Core.Option.{Option, none, some}
use mathlib.Core.List.{[], ◌∷◌}
use mathlib.Core.Logic.{inl, inr}
use native.Mathlib.Omega.{arith}
use sccache.Prelude.Tests.{ltb, leb, if◌then◌else◌, Bool-cases, lt→ltb, le→leb, ltb→lt, not_ltb→le}
use sccache.Prelude.Texts.{Text}

-- The digits in front of `acc`; a number has no more digits than its value and one.
unfoldable pub digits : ℕ → ℕ → Text → Text
digits zero n acc = acc
digits (suc fuel) n acc =
    let rest = digits fuel (n / 10) ((48 + n % 10) ∷ acc) in
    if ltb n 10 then (48 + n) ∷ acc else rest

unfoldable pub decimal : ℕ → Text
unfolding digits
decimal n = digits (suc n) n []

abbrev pub is_digit : ℕ → Bool
is_digit c = leb 48 c && leb c 57

-- The value of a row of digits below the bound, after the digits whose value is `acc`.
unfoldable pub read_digits : ℕ → ℕ → Text → Option ℕ
read_digits bound acc [] = some acc
read_digits bound acc (c ∷ cs) =
    let rest = read_digits bound (acc * 10 + (c - 48)) cs in
    if is_digit c && ltb (acc * 10 + (c - 48)) bound then rest else none

-- `from_str` without a sign.
unfoldable pub read_decimal : ℕ → Text → Option ℕ
unfolding read_digits
read_decimal bound [] = none
read_decimal bound (c ∷ cs) = read_digits bound 0 (c ∷ cs)

read_digits-digit :
    (bound m d n : ℕ) (text : Text)
    → d < 10
    → m * 10 + d ≡ n
    → n < bound
    → read_digits bound m ((48 + d) ∷ text) ≡ read_digits bound n text
unfolding read_digits
read_digits-digit bound m d n text h e hb =
    let value : m * 10 + ((48 + d) - 48) ≡ n = omega (arith, e) in
    let low : leb 48 (48 + d) ≡ true = le→leb 48 (48 + d) (omega (arith)) in
    let high : leb (48 + d) 57 ≡ true = le→leb (48 + d) 57 (omega (arith, h)) in
    let small : ltb n bound ≡ true = lt→ltb n bound hb in rw (value, low, high, small) refl

-- The digits written are read back as the number.
read_digits-digits :
    (fuel n bound : ℕ) (text : Text)
    → n < fuel
    → n < bound
    → read_digits bound 0 (digits fuel n text) ≡ read_digits bound n text
unfolding digits
read_digits-digits zero n bound text h hb = absurd (omega (arith, h))
read_digits-digits (suc fuel) n bound text h hb = elim (Bool-cases (ltb n 10)) [
  | inl short ↦ rw short (read_digits-digit bound 0 n n text (ltb→lt n 10 short) (omega (arith)) hb)
  | inr long ↦
      let tall = not_ltb→le n 10 long in
      rw long (
        read_digits-digits fuel (n / 10) bound _ (omega (arith, h, tall)) (omega (arith, h, hb))
        ∙ read_digits-digit bound (n / 10) (n % 10) n text (omega (arith)) (omega (arith)) hb)
]

-- A text that begins with a digit.
pub record Leads (t : Text) : Type 0 where
  pub first : ℕ
  pub others : Text
  pub split : t ≡ (48 + first) ∷ others

digits-Leads : (fuel n : ℕ) (t : Text) → Leads t → Leads (digits fuel n t)
unfolding digits
digits-Leads zero n t h = h
digits-Leads (suc fuel) n t h = elim (Bool-cases (ltb n 10)) [
  | inl short ↦ rw short (record { first = n; others = t; split = refl })
  | inr long ↦ rw long (
      digits-Leads fuel (n / 10) ((48 + n % 10) ∷ t)
        (record { first = n % 10; others = t; split = refl }))
]

pub decimal-Leads : (n : ℕ) → Leads (decimal n)
unfolding decimal digits
decimal-Leads n = elim (Bool-cases (ltb n 10)) [
  | inl short ↦ rw short (record { first = n; others = []; split = refl })
  | inr long ↦ rw long (
      digits-Leads n (n / 10) ((48 + n % 10) ∷ [])
        (record { first = n % 10; others = []; split = refl }))
]

read_decimal-Leads : (bound : ℕ) (t : Text) → Leads t → read_decimal bound t ≡ read_digits bound 0 t
unfolding read_decimal
read_decimal-Leads bound t h = rw h.split refl

-- A number that is written in decimal is read back below the bound.
pub read_decimal-decimal : (n bound : ℕ) → n < bound → read_decimal bound (decimal n) ≡ some n
unfolding decimal read_digits
read_decimal-decimal n bound h =
    read_decimal-Leads bound (decimal n) (decimal-Leads n)
    ∙ read_digits-digits (suc n) n bound [] (omega arith) h
