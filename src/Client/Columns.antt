-- ===== src/Client/Columns.antt =====
-- The columns that `print_stats` of src/commands.rs prints.
use sccache.Prelude.{
  ℕ, zero, suc, Text, List, [], ◌∷◌, ◌++◌, ◌≡◌, ◌≤◌, ◌+◌, ◌-◌, refl, some, inl, inr, ltb, leb,
  leb→le, not_leb→lt, Bool-cases, length, map, All, All-map, length-append, arith, ap, ◌∙◌, sym,
}
use sccache.Protocol.Statistic.{CacheStatistic, CacheStats}
use sccache.Client.Stats.{utf8_len, spaces, max, show_line, format_stat, show_lines, print_stats}

length-utf8_len : (t : Text) → length t ≤ utf8_len t
length-utf8_len [] = omega arith
length-utf8_len (c ∷ cs) =
    let rest = length-utf8_len cs in
    elim (Bool-cases (ltb c 128)) [
      | inl one ↦ rw one (omega (arith, rest))
      | inr more ↦ rw more (elim (Bool-cases (ltb c 2048)) [
        | inl two ↦ rw two (omega (arith, rest))
        | inr more ↦ rw more (elim (Bool-cases (ltb c 65536)) [
          | inl three ↦ rw three (omega (arith, rest))
          | inr four ↦ rw four (omega (arith, rest))
        ])
      ])
    ]

length-spaces : (n : ℕ) → length (spaces n) ≡ n
length-spaces zero = refl
length-spaces (suc n) = omega (arith, length-spaces n)

max-bound : (n : ℕ) (ns : List ℕ) → (m : ℕ) × (max (n ∷ ns) ≡ some m) × All (λ k. k ≤ m) (n ∷ ns)
unfolding max
max-bound n [] = (n, refl, (omega arith, tt))
max-bound n (k ∷ ks) =
    let (m, e, below) = max-bound k ks in
    elim (Bool-cases (leb n m)) [
      | inl small ↦ (m, rw (e, small) refl, (leb→le n m small, below))
      | inr large ↦
          let lt = not_leb→lt n m large in
          (
            n,
            rw (e, large) refl,
            (
              omega arith,
              All-map (λ x. x ≤ m) (λ x. x ≤ n) (k ∷ ks) (λ x h. omega (arith, h, lt)) below,
            ),
          )
    ]

length-padded :
    (a p q b : Text)
    → length (a ++ p ++ 32 ∷ q ++ b) ≡ length a + length p + suc (length q + length b)
length-padded [] [] q b = omega (arith, length-append q b)
length-padded [] (x ∷ p) q b = omega (arith, length-padded [] p q b)
length-padded (x ∷ a) p q b = omega (arith, length-padded a p q b)

length-show_line :
    (w v : ℕ) (name stat : Text)
    → length name ≤ w
    → length stat ≤ v
    → length (show_line w v (name, stat)) ≡ w + suc v
unfolding show_line
length-show_line w v name stat hw hv = omega (
  arith,
  hw,
  hv,
  length-padded name (spaces (w - length name)) (spaces (v - length stat)) stat,
  length-spaces (w - length name),
  length-spaces (v - length stat),
)

length-map : {A B : Type 0} (f : A → B) (xs : List A) → length (map f xs) ≡ length xs
length-map f [] = refl
length-map f (x ∷ xs) = ap suc (length-map f xs)

-- Widths that hold the UTF-8 bytes hold the characters.
show_line-All :
    (w v : ℕ) (ps : List (Text × Text))
    → All (λ k. k ≤ w) (map (λ p. utf8_len p.0) ps)
    → All (λ k. k ≤ v) (map (λ p. utf8_len p.1) ps)
    → All (λ l. length l ≡ w + suc v) (map (show_line w v) ps)
show_line-All w v [] hw hv = tt
show_line-All w v (p ∷ ps) hw hv = (
  length-show_line w v p.0 p.1 (omega (arith, hw.0, length-utf8_len p.0))
      (omega (arith, hv.0, length-utf8_len p.1)),
  show_line-All w v ps hw.1 hv.1,
)

module _ (show_size : ℕ → Text) where
  -- For statistics that are not empty, `print_stats` does not panic. It prints a line for each of
  -- them, and all lines are equally long, whatever the characters of the names and values.
  pub print_stats-columns :
      (stats : CacheStats) (s : CacheStatistic) (ss : List CacheStatistic)
      → stats.stats ≡ s ∷ ss
      → (lines : List Text) × (width : ℕ) × (print_stats show_size stats ≡ some lines)
        × (length lines ≡ length stats.stats)
        × All (λ l. length l ≡ width) lines
  unfolding print_stats show_lines
  print_stats-columns stats s ss h =
      let f = format_stat show_size in
      let ps = map f ss in
      let (w, ew, hw) = max-bound (utf8_len (f s).0) (map (λ p. utf8_len p.0) ps) in
      let (v, ev, hv) = max-bound (utf8_len (f s).1) (map (λ p. utf8_len p.1) ps) in
      (
        map (show_line w v) (f s ∷ ps),
        w + suc v,
        rw (h, ew, ev) refl,
        length-map (show_line w v) (f s ∷ ps) ∙ ap suc (length-map f ss) ∙ ap length (sym h),
        show_line-All w v (f s ∷ ps) hw hv,
      )
