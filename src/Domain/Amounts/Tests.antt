-- ===== src/Domain/Amounts/Tests.antt =====
-- Inputs of amounts.test.ts, and the theorems on amounts at concrete values.
use showup.Prelude.{ℕ, ◌≡◌, ◌≤◌, ◌<◌, ◌+◌, ◌*◌, refl, arith, true}
use showup.Prelude.Int.{pos, negsuc, quotient, ◌*ℤ◌, ◌-ℤ◌}
use showup.Prelude.Outcome.{returned, thrown}
use showup.Prelude.Text.{
  codes, trim, strip_start, strip_end, is_space, index_of, pad_end, number, number_from, pad_start,
  to_decimal, emit,
}
use showup.Domain.Amounts.Defs.{
  is_display_amount, match_unsigned, magnitude_of, body_of, fraction_digits, to_stroops,
  from_stroops, too_many_decimals, not_decimal, empty, split_by_bps,
}
use showup.Domain.Amounts.RoundTrip.{to_stroops-from_stroops}
use showup.Domain.Amounts.Exact.{to_stroops-exact}
use showup.Domain.Amounts.Split.{split_by_bps-share}

parses : to_stroops (codes " +12.5 ") ≡ returned (pos 125_000_000)
unfolding to_stroops trim strip_start strip_end is_space is_display_amount match_unsigned
    magnitude_of index_of pad_end number number_from
parses = refl

parses_negative : to_stroops (codes "-0.0000001") ≡ returned (negsuc 0)
unfolding to_stroops trim strip_start strip_end is_space is_display_amount match_unsigned
    magnitude_of index_of pad_end number number_from
parses_negative = refl

refuses : to_stroops (codes "1.00000001") ≡ thrown too_many_decimals
unfolding to_stroops trim strip_start strip_end is_space is_display_amount match_unsigned
    magnitude_of index_of pad_end number number_from
refuses = refl

refuses_text : to_stroops (codes "1.") ≡ thrown not_decimal
unfolding to_stroops trim strip_start strip_end is_space is_display_amount match_unsigned
    magnitude_of index_of pad_end number number_from
refuses_text = refl

refuses_blank : to_stroops (codes "  ") ≡ thrown empty
unfolding to_stroops trim strip_start strip_end is_space is_display_amount match_unsigned
    magnitude_of index_of pad_end number number_from
refuses_blank = refl

prints : from_stroops (negsuc 124_999_999) ≡ codes "-12.5"
unfolding from_stroops body_of fraction_digits strip_end pad_start to_decimal emit
prints = refl

to_stroops-from_stroops_example :
    to_stroops (from_stroops (negsuc 124_999_999)) ≡ returned (negsuc 124_999_999)
to_stroops-from_stroops_example = to_stroops-from_stroops (negsuc 124_999_999)

to_stroops-exact_example : to_stroops (codes "-12.05") ≡ returned (negsuc 120_499_999)
unfolding number
to_stroops-exact_example = to_stroops-exact (codes "12") (codes "05") refl refl refl refl true

split_by_bps-share_example :
    (o c : ℕ) × (split_by_bps (pos 33) (pos 8000)
      ≡ returned (record { organizer = pos o; community = pos c }))
    × (o * 10000 ≤ 33 * 8000)
    × (33 * 8000 < o * 10000 + 10000)
    × (o + c ≡ 33)
split_by_bps-share_example = split_by_bps-share 33 8000 (omega arith)

splits :
    split_by_bps (negsuc 32) (pos 8000)
    ≡ returned (record { organizer = negsuc 25; community = negsuc 6 })
unfolding split_by_bps quotient ◌*ℤ◌ ◌-ℤ◌
splits = refl
