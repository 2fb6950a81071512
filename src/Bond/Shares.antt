-- ===== src/Bond/Shares.antt =====
-- The two shares of a settled bond.
use showup.Prelude.{ℕ, ◌+◌, ◌-◌, ◌*◌, ◌/◌, ◌≤◌, ◌<◌, ◌^◌, ◌≡◌, some, arith}
use showup.Prelude.Int.{ℤ, pos, negsuc, above, sub_ℕ, ◌<ℤ◌, ◌-ℤ◌, ◌*ℤ◌, quotient}
use showup.Bond.Entry.{checked_i128}

-- A share of at most ten thousand basis points is at most the whole.
pub share-le : (a b : ℕ) → b ≤ 10000 → a * b / 10000 ≤ a
share-le a b le = grind arith

-- The organizer's share of a positive amount.
pub organizer :
    (z : ℤ) (b : ℕ) (o : ℤ)
    → pos 0 <ℤ z
    → o ≡ quotient (z *ℤ pos b) 10000
    → o ≡ pos (above z * b / 10000)
unfolding ◌*ℤ◌ quotient
organizer (pos a) b o positive share = share
organizer (negsuc a) b o positive share = absurd (ground arith)

-- The pool's share is the rest.
pub community :
    (z : ℤ) (b : ℕ) (o c : ℤ)
    → pos 0 <ℤ z
    → b ≤ 10000
    → o ≡ quotient (z *ℤ pos b) 10000
    → c ≡ z -ℤ o
    → c ≡ pos (above z - above z * b / 10000)
unfolding ◌-ℤ◌
community (pos a) b o c positive le share rest =
    let eq : o ≡ pos (a * b / 10000) = organizer (pos a) b o positive share in
    ground (arith, share-le a b le)
community (negsuc a) b o c positive le share rest = absurd (ground arith)

-- The two shares make up the bond.
pub whole :
    (z : ℤ) (b : ℕ) (o c : ℤ)
    → pos 0 <ℤ z
    → b ≤ 10000
    → o ≡ quotient (z *ℤ pos b) 10000
    → c ≡ z -ℤ o
    → above o + above c ≡ above z
whole z b o c positive le share rest =
    rw (organizer z b o positive share, community z b o c positive le share rest)
      (omega (arith, share-le (above z) b le))

-- The checked arithmetic of the two shares passes, where the product fits an i128.
pub product_fits :
    (z : ℤ) (b : ℕ)
    → pos 0 <ℤ z
    → above z * b < 2 ^ 127
    → checked_i128 (z *ℤ pos b) ≡ some (pos (above z * b))
unfolding ◌*ℤ◌
product_fits (pos a) b positive fits = ground arith
product_fits (negsuc a) b positive fits = absurd (ground arith)

pub quotient_fits :
    (n : ℕ) → n < 2 ^ 127 → checked_i128 (quotient (pos n) 10000) ≡ some (pos (n / 10000))
unfolding quotient
quotient_fits n fits = let less : n / 10000 < 2 ^ 127 = omega arith in ground arith

pub rest_fits :
    (z : ℤ) (b : ℕ)
    → pos 0 <ℤ z
    → b ≤ 10000
    → above z < 2 ^ 127
    → checked_i128 (z -ℤ pos (above z * b / 10000)) ≡ some (pos (above z - above z * b / 10000))
unfolding ◌-ℤ◌
rest_fits (pos a) b positive le fits =
    let less : a * b / 10000 ≤ a = share-le a b le in rest a (a * b / 10000) less fits
  where
    rest :
        (m o : ℕ) → o ≤ m → m < 2 ^ 127 → checked_i128 (sub_ℕ (m + 0) (0 + o)) ≡ some (pos (m - o))
    rest m o less fits = ground arith
rest_fits (negsuc a) b positive le fits = absurd (ground arith)
