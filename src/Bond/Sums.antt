-- ===== src/Bond/Sums.antt =====
-- Sums of a weight over distinct seats, when the weight of one seat changes.
use showup.Prelude.{
  ℕ, ◌+◌, ◌≡◌, ◌≢◌, inl, inr, List, [], ◌∷◌, In, refl, arith, ap, String, false, ◌&&◌, str_eq, ◌==◌,
  eq_iff,
}
use showup.Bond.Runs.{Seat, seat}

abbrev pub weigh : (Seat → ℕ) → List Seat → ℕ
weigh w [] = 0
weigh w (k ∷ ks) = w k + weigh w ks

abbrev pub Distinct : List Seat → Type 0
Distinct [] = Unit
Distinct (k ∷ ks) = ¬ In k ks × Distinct ks

-- The test by which a storage key of a reservation is another.
pub other_key : (id j : ℕ) (p q : String) → seat j q ≢ seat id p → (id == j && str_eq p q) ≡ false
other_key id j p q ne = ground (arith, eq_iff p q, ne)

module _ (w w' : Seat → ℕ) (k : Seat) (same : (x : Seat) → x ≢ k → w' x ≡ w x) where
  pub weigh-outside : (ks : List Seat) → ¬ In k ks → weigh w' ks ≡ weigh w ks
  weigh-outside [] out = refl
  weigh-outside (x ∷ ks) out =
      omega (arith, same x (λ e. out (inl e)), weigh-outside ks (λ m. out (inr m)))

  pub weigh-at : (ks : List Seat) → Distinct ks → In k ks → weigh w' ks + w k ≡ weigh w ks + w' k
  weigh-at [] d m = absurd m
  weigh-at (x ∷ ks) (new, d) (inl e) =
      let out : ¬ In k ks = λ m. new (rw e m) in
      omega (arith, weigh-outside ks out, ap w e, ap w' e)
  weigh-at (x ∷ ks) (new, d) (inr m) = omega (arith, same x (λ e. new (rw e m)), weigh-at ks d m)
