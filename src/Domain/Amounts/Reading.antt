-- ===== src/Domain/Amounts/Reading.antt =====
-- How `toStroops` reads a text made of digits, a dot and digits.
use showup.Prelude.{
  ℕ, suc, ◌+◌, ◌*◌, ◌≤◌, ◌<◌, ◌≡◌, refl, Bool, true, false, not, ◌||◌, none, some, List, [], ◌∷◌,
  ◌++◌, arith, length, take, drop, all, ap, ltb,
}
use showup.Prelude.Outcome.{returned, thrown, ◌>>=◌}
use showup.Prelude.Int.{pos, neg}
use showup.Prelude.Text.{is_digit, is_space, is_empty, index_of, number, pad_end, trim-of_none}
use showup.Domain.Amounts.Defs.{
  amount_decimals, one_unit_in_stroops, match_unsigned, magnitude_of, too_many_decimals, to_stroops,
  is_display_amount,
}

-- Digits, dots and minus signs are no white space.
pub digits-not_space : (s : List ℕ) → all is_digit s ≡ true → all (λ c. not (is_space c)) s ≡ true
unfolding is_space
digits-not_space [] h = refl
digits-not_space (c ∷ s) h = ground (arith, digits-not_space s)

pub all-append :
    (p : ℕ → Bool) (s t : List ℕ) → all p s ≡ true → all p t ≡ true → all p (s ++ t) ≡ true
all-append p [] t h k = k
all-append p (c ∷ s) t h k = ground (arith, all-append p s t)

pub match_unsigned-digits :
    (seen : Bool) (s t : List ℕ)
    → all is_digit s ≡ true
    → match_unsigned seen (s ++ t) ≡ match_unsigned (seen || not (is_empty s)) t
unfolding match_unsigned
match_unsigned-digits seen [] t h = ground arith
match_unsigned-digits seen (c ∷ s) t h = ground (arith, match_unsigned-digits true s t)

pub match_unsigned-all_digits :
    (seen : Bool) (s : List ℕ)
    → all is_digit s ≡ true
    → match_unsigned seen s ≡ (seen || not (is_empty s))
unfolding match_unsigned
match_unsigned-all_digits seen [] h = ground arith
match_unsigned-all_digits seen (c ∷ s) h = ground (arith, match_unsigned-all_digits true s)

pub head-digit :
    (s t r : List ℕ) (c : ℕ)
    → all is_digit s ≡ true
    → is_empty s ≡ false
    → s ++ t ≡ c ∷ r
    → is_digit c ≡ true
head-digit [] t r c h k e = cc
head-digit (d ∷ s) t r c h k e = ground arith

pub index_of-dot :
    (s t : List ℕ) → all is_digit s ≡ true → index_of b'.' (s ++ (b'.' ∷ t)) ≡ some (length s)
unfolding index_of
index_of-dot [] t h = refl
index_of-dot (c ∷ s) t h = ground (arith, index_of-dot s t)

pub index_of-none : (s : List ℕ) → all is_digit s ≡ true → index_of b'.' s ≡ none
unfolding index_of
index_of-none [] h = refl
index_of-none (c ∷ s) h = ground (arith, index_of-none s)

take-length : (s t : List ℕ) → take (length s) (s ++ t) ≡ s
take-length [] t = refl
take-length (c ∷ s) t = ap (λ l. c ∷ l) (take-length s t)

drop-length : (s t : List ℕ) (c : ℕ) → drop (suc (length s)) (s ++ (c ∷ t)) ≡ t
drop-length [] t c = refl
drop-length (d ∷ s) t c = drop-length s t c

-- The magnitude of digits alone, and of digits around a dot.
pub magnitude_of-whole :
    (s : List ℕ)
    → all is_digit s ≡ true
    → magnitude_of s
      ≡ returned (number s * one_unit_in_stroops + number (pad_end amount_decimals b'0' []))
unfolding magnitude_of
magnitude_of-whole s h = rw (index_of-none s h)

pub magnitude_of-dot :
    (s t : List ℕ)
    → all is_digit s ≡ true
    → length t ≤ amount_decimals
    → magnitude_of (s ++ (b'.' ∷ t))
      ≡ returned (number s * one_unit_in_stroops + number (pad_end amount_decimals b'0' t))
unfolding magnitude_of
magnitude_of-dot s t h k =
    let short : ltb amount_decimals (length t) ≡ false = ground arith in
    rw (index_of-dot s t h, take-length s (b'.' ∷ t), drop-length s t b'.', short)

pub magnitude_of-long :
    (s t : List ℕ)
    → all is_digit s ≡ true
    → amount_decimals < length t
    → magnitude_of (s ++ (b'.' ∷ t)) ≡ thrown too_many_decimals
unfolding magnitude_of
magnitude_of-long s t h k =
    let long : ltb amount_decimals (length t) ≡ true = ground arith in
    rw (index_of-dot s t h, drop-length s t b'.', long)

pub dot_digits :
    (s : List ℕ)
    → is_empty s ≡ false
    → all is_digit s ≡ true
    → match_unsigned true (b'.' ∷ s) ≡ true
unfolding match_unsigned
dot_digits s more digits = rw (more, digits)

-- Text with a digit first is read as its magnitude.
pub read_unsigned :
    (s : List ℕ)
    → ((c : ℕ) (r : List ℕ) → s ≡ c ∷ r → is_digit c ≡ true)
    → match_unsigned false s ≡ true
    → all (λ c. not (is_space c)) s ≡ true
    → to_stroops s ≡ (magnitude_of s >>= λ m. returned (pos m))
unfolding to_stroops is_display_amount
read_unsigned [] first form solid = absurd (unfold match_unsigned in cc form)
read_unsigned (c ∷ s) first form solid =
    rw (trim-of_none (c ∷ s) solid) (ground (arith, first c s refl))

-- Behind a minus sign it is negated.
pub read_negative :
    (s : List ℕ)
    → match_unsigned false s ≡ true
    → all (λ c. not (is_space c)) s ≡ true
    → to_stroops (b'-' ∷ s) ≡ (magnitude_of s >>= λ m. returned (neg (pos m)))
unfolding to_stroops is_display_amount
read_negative s form solid = rw (trim-of_none (b'-' ∷ s) (unfold is_space in solid)) (rw form)
