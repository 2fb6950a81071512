-- ===== src/Contract/EventLog/Tally.antt =====
-- Every participant of the log is read or counted, and a history that is complete lacks nobody.
use showup.Prelude.{
  ℕ, ◌+◌, ◌≤◌, String, true, Option, none, some, List, [], ◌∷◌, ◌≡◌, ◌⊎◌, ◌↔◌, inl, inr, refl,
  arith, length, length-append, length-map, map, In, subst,
}
use showup.Prelude.Outcome.{Outcome, returned, thrown}
use showup.Domain.Types.{ReservationView}
use showup.Contract.Mappers.{GeneratedReservation}
use showup.Contract.Calls.{Failure, Assembled}
use showup.Contract.EventLog.Entries.{ShowUpContractEvent}
use showup.Contract.EventLog.Pages.{EventLogSnapshot}
use showup.Contract.EventLog.Reservations.{
  EventReservationList, locked_by, participants_from, Tally, count_one, tally,
  read_current_reservation, list_event_reservations,
}
use showup.Contract.EventLog.Listed.{Distinct, In-participants_from, Distinct-participants_from}

tally-count :
    (os : List (Outcome Failure (Option ReservationView))) (t : Tally)
    → length (tally os t).reservations + (tally os t).unreadable
      ≡ length t.reservations + t.unreadable + length os
unfolding tally
tally-count [] t = omega arith
tally-count (thrown e ∷ os) t = omega (arith, tally-count os (count_one (thrown e) t))
tally-count (returned none ∷ os) t = omega (arith, tally-count os (count_one (returned none) t))
tally-count (returned (some v) ∷ os) t =
    omega (
      arith,
      tally-count os (count_one (returned (some v)) t),
      length-append t.reservations (v ∷ []),
    )

tally-grows :
    (os : List (Outcome Failure (Option ReservationView))) (t : Tally)
    → t.unreadable ≤ (tally os t).unreadable
unfolding tally
tally-grows [] t = omega arith
tally-grows (thrown e ∷ os) t = omega (arith, tally-grows os (count_one (thrown e) t))
tally-grows (returned none ∷ os) t = omega (arith, tally-grows os (count_one (returned none) t))
tally-grows (returned (some v) ∷ os) t = tally-grows os (count_one (returned (some v)) t)

-- The read gave a reservation.
abbrev pub IsRead : Outcome Failure (Option ReservationView) → Type 0
IsRead o = (v : ReservationView) × (o ≡ returned (some v))

module _ (read : String → Outcome Failure (Option ReservationView)) where
  IsRead-one :
      (o : Outcome Failure (Option ReservationView))
      (os : List (Outcome Failure (Option ReservationView))) (t : Tally)
      → ((tally (o ∷ os) t).unreadable ≡ t.unreadable)
        ↔ (IsRead o × ((tally os (count_one o t)).unreadable ≡ (count_one o t).unreadable))
  unfolding tally
  IsRead-one (thrown e) os t =
      (λ h. absurd (omega (arith, tally-grows os (count_one (thrown e) t))), λ ((v, h), k). cc)
  IsRead-one (returned none) os t =
      (λ h. absurd (omega (arith, tally-grows os (count_one (returned none) t))), λ ((v, h), k). cc)
  IsRead-one (returned (some v)) os t = (λ h. ((v, refl), h), λ (r, h). h)

  all-IsRead :
      (ps : List String) (t : Tally)
      → ((tally (map read ps) t).unreadable ≡ t.unreadable)
        ↔ ((p : String) → In p ps → IsRead (read p))
  all-IsRead [] t = (λ h p m. absurd m, λ h. unfold tally in refl)
  all-IsRead (q ∷ ps) t =
      let (forth, back) = IsRead-one (read q) (map read ps) t in
      let (all_of, of_all) = all-IsRead ps (count_one (read q) t) in
      (
        λ h p m. elim m [
          | inl e ↦ subst (λ s. IsRead (read s)) e (forth h).0
          | inr n ↦ all_of (forth h).1 p n
        ],
        λ h. back (h q (inl refl), of_all (λ p m. h p (inr m))),
      )

named :
    (es : List ShowUpContractEvent) (p : String)
    (P : Outcome Failure (Option ReservationView) → Type 0)
    (read : String → Outcome Failure (Option ReservationView))
    → In p [] ⊎ ((e : ShowUpContractEvent) × In e es × (locked_by e ≡ some p))
    → ((q : String) (e : ShowUpContractEvent) → In e es → locked_by e ≡ some q → P (read q))
    → P (read p)
named es p P read (inl m) h = absurd m
named es p P read (inr (e, m, l)) h = h p e m l

-- A listing behind a log: the participants are those of the log's locked bonds, each once; the
-- reservations returned and the unreadable ones make up all of them; and the history is reported
-- complete exactly when the log's is and every participant of a locked bond was read back.
pub list_event_reservations_lem :
    (contract_code : List ℕ → Option ℕ) (stringify : Failure → List ℕ) (to_number : ℕ → ℕ)
    (call : String → Outcome Failure (Assembled (Option GeneratedReservation)))
    (log : EventLogSnapshot)
    → let r : EventReservationList =
        list_event_reservations contract_code stringify to_number call log in
      let ps : List String = participants_from log.entries [] in
      Distinct ps
      × ((p : String)
          → In p ps ↔ ((e : ShowUpContractEvent) × In e log.entries × (locked_by e ≡ some p)))
      × (length r.reservations + r.unreadable ≡ length ps)
      × ((r.history_complete ≡ true) ↔ (
          (log.history_complete ≡ true)
          × ((p : String) (e : ShowUpContractEvent)
              → In e log.entries
              → locked_by e ≡ some p
              → IsRead (read_current_reservation contract_code stringify to_number call p))))
unfolding list_event_reservations
list_event_reservations_lem contract_code stringify to_number call log =
    let read : String → Outcome Failure (Option ReservationView) =
      read_current_reservation contract_code stringify to_number call in
    let ps : List String = participants_from log.entries [] in
    let empty : Tally = record { reservations = []; unreadable = 0 } in
    let (all_of, of_all) = all-IsRead read ps empty in
    (
      Distinct-participants_from log.entries [] tt,
      λ p.
          let (out, into) = In-participants_from p log.entries [] in
          (λ m. elim (out m) [ inl n ↦ absurd n | inr x ↦ x ], λ x. into (inr x)),
      omega (arith, tally-count (map read ps) empty, length-map read ps),
      (
        λ h. (
          ground arith,
          λ p e m l.
              all_of (ground arith) p ((In-participants_from p log.entries []).1 (inr (e, m, l))),
        ),
        λ (c, h).
            let none_missing : (tally (map read ps) empty).unreadable ≡ 0 = of_all (λ p m.
              named log.entries p (λ o. IsRead o) read ((In-participants_from p log.entries []).0 m)
                h) in
            ground arith,
      ),
    )
