-- ===== src/Domain/EventId.antt =====
-- apps/web/lib/domain/event-id.ts: a route parameter as a u64 event id.
use showup.Prelude.{
  ℕ, ◌-◌, ◌^◌, ◌≤◌, ◌<◌, ◌≡◌, ◌≢◌, ◌↔◌, true, ◌&&◌, not, Option, none, some, List, [], ◌∷◌, arith,
  length, all, ltb, leb, if◌then◌else◌,
}
use showup.Prelude.Text.{
  is_digit, is_empty, number, to_decimal, to_decimal-digits, to_decimal_pos, number-to_decimal,
}

-- `MAX_EVENT_ID`.
abbrev pub max_event_id : ℕ
max_event_id = 2 ^ 64 - 1

-- `parseEventId`. `BigInt` does not throw on digits, so the `catch` is never taken.
unfoldable pub parse_event_id : List ℕ → Option ℕ
parse_event_id raw =
    if not (is_empty raw) && all is_digit raw
    then (if ltb 0 (number raw) && leb (number raw) max_event_id then some (number raw) else none)
    else none

-- An id is returned exactly when the text is one or more digits that spell it, and it lies between 1
-- and the largest u64.
pub parse_event_id-some_iff :
    (raw : List ℕ) (n : ℕ)
    → (parse_event_id raw ≡ some n)
      ↔ ((raw ≢ []) × (all is_digit raw ≡ true) × (number raw ≡ n) × (0 < n) × (n ≤ max_event_id))
unfolding parse_event_id
parse_event_id-some_iff [] n = ground arith
parse_event_id-some_iff (c ∷ raw) n = ground arith

-- Every id that a u64 holds, but 0, is read back from its decimal print.
pub parse_event_id-to_decimal :
    (n : ℕ) → 0 < n → n ≤ max_event_id → parse_event_id (to_decimal n) ≡ some n
unfolding parse_event_id
parse_event_id-to_decimal n h k =
    (parse_event_id-some_iff (to_decimal n) n).1
      (not_nil (to_decimal n) (to_decimal_pos n), to_decimal-digits n, number-to_decimal n, h, k)
  where
    not_nil : (s : List ℕ) → 0 < length s → s ≢ []
    not_nil [] p = absurd (omega arith)
    not_nil (c ∷ s) p = cc
