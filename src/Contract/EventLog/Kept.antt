-- ===== src/Contract/EventLog/Kept.antt =====
-- The entries of a log are exactly the raw events that belong in it.
use showup.Prelude.{
  ℕ, true, Option, none, some, List, [], ◌∷◌, ◌≡◌, ◌⊎◌, ◌↔◌, inl, inr, refl, arith, In, Bool-cases,
  Option-cases, ap, ◌∙◌,
}
use showup.Prelude.Int.{ℤ, pos, negsuc}
use showup.Prelude.Outcome.{Outcome, returned, thrown, ◌>>=◌}
use showup.Contract.EventLog.Entries.{
  LogFailure, ShowUpContractEvent, ParsedEvent, RawEvent, map_event, event_id_of, same_id, kept,
  entry_of, push, entries_of,
}

-- The raw event was in a successful call, was parsed, is mapped onto `e`, and `e` has the id asked for.
abbrev pub IsEntryOf : ℕ → RawEvent → ShowUpContractEvent → Type 0
IsEntryOf id raw e =
    (raw.in_successful_contract_call ≡ true)
    × ((p : ParsedEvent) × (raw.parsed ≡ some p)
        × (map_event raw.metadata p ≡ returned (some e))
        × (event_id_of e ≡ pos id))

same_id_iff : (z : ℤ) (id : ℕ) → (same_id z id ≡ true) ↔ (z ≡ pos id)
same_id_iff (pos n) id = ground arith
same_id_iff (negsuc n) id = ground arith

kept_one :
    (id : ℕ) (f e : ShowUpContractEvent)
    → (kept id (some f) ≡ some e) ↔ ((f ≡ e) × (event_id_of e ≡ pos id))
kept_one id f e = elim (Bool-cases (same_id (event_id_of f) id)) [
  | inl same ↦
      let at_id : event_id_of f ≡ pos id = (same_id_iff (event_id_of f) id).0 same in
      (
        λ h. let q : f ≡ e = ground arith in (q, rw q at at_id),
        λ (h, k). rw same (ap (λ x. some x) h),
      )
  | inr differs ↦ (
    λ h. absurd (ground arith),
    λ (h, k). absurd (ground (arith, same_id_iff (event_id_of f) id, ap event_id_of h)),
  )
]

mapped-some :
    (id : ℕ) (e : ShowUpContractEvent) (o : Outcome LogFailure (Option ShowUpContractEvent))
    → ((o >>= λ x. returned (kept id x)) ≡ returned (some e))
      ↔ ((o ≡ returned (some e)) × (event_id_of e ≡ pos id))
mapped-some id e (thrown f) = (λ h. cc, λ (h, k). cc)
mapped-some id e (returned none) = (λ h. cc, λ (h, k). cc)
mapped-some id e (returned (some f)) =
    let (forth, back) = kept_one id f e in
    (
      λ h. let (p, q) = forth (cc) in (ap (λ x. returned (some x)) p, q),
      λ (h, k). ap (λ x. returned x) (back (cc, k)),
    )

entry_of_iff :
    (id : ℕ) (raw : RawEvent) (e : ShowUpContractEvent)
    → (entry_of id raw ≡ returned (some e)) ↔ IsEntryOf id raw e
unfolding entry_of
entry_of_iff id raw e = elim (Bool-cases raw.in_successful_contract_call) [
  | inl ok ↦ elim (Option-cases raw.parsed) [
    | inl unparsed ↦ (λ h. absurd (ground arith), λ (s, (p, q, m, i)). absurd (cc))
    | inr (p, parsed) ↦
        let (forth, back) = mapped-some id e (map_event raw.metadata p) in
        (
          λ h. let (m, i) = forth (rw (ok, parsed) at h) in (ok, (p, parsed, m, i)),
          λ (s, (p2, q, m, i)). let same : p2 ≡ p = cc in rw (ok, parsed) (back (rw same at m, i)),
        )
  ]
  | inr bad ↦ (λ h. absurd (ground arith), λ (s, x). absurd (cc))
]

-- The loop's result, raw event by raw event.
In-push :
    (o : Option ShowUpContractEvent) (es : List ShowUpContractEvent) (e : ShowUpContractEvent)
    → In e (push o es) ↔ ((o ≡ some e) ⊎ In e es)
In-push none es e = (λ h. inr h, λ h. elim h [ inl p ↦ absurd (cc) | inr q ↦ q ])
In-push (some f) es e = (
  λ h. elim h [ inl p ↦ inl (ap (λ x. some x) p) | inr q ↦ inr q ],
  λ h. elim h [ inl p ↦ inl (cc) | inr q ↦ inr q ],
)

one_entry :
    (id : ℕ) (o : Outcome LogFailure (Option ShowUpContractEvent))
    (r : Outcome LogFailure (List ShowUpContractEvent)) (es : List ShowUpContractEvent)
    → (o >>= λ e. r >>= λ rest. returned (push e rest)) ≡ returned es
    → (x : Option ShowUpContractEvent) × (rest : List ShowUpContractEvent) × (o ≡ returned x)
      × (r ≡ returned rest)
      × (push x rest ≡ es)
one_entry id (thrown f) r es h = cc
one_entry id (returned x) (thrown f) es h = cc
one_entry id (returned x) (returned rest) es h = (x, rest, refl, refl, cc)

returned-some :
    (id : ℕ) (raw raw2 : RawEvent) (x : Option ShowUpContractEvent) (e : ShowUpContractEvent)
    → raw ≡ raw2
    → entry_of id raw ≡ returned x
    → entry_of id raw2 ≡ returned (some e)
    → x ≡ some e
returned-some id raw raw2 x e same p q = cc

-- When the raw events are all read, an entry is in the log exactly when some raw event of a successful
-- call was parsed and mapped onto it and it has the id asked for. Nothing else is let in, and nothing
-- of this event is lost.
pub entries_of_iff :
    (id : ℕ) (raws : List RawEvent) (es : List ShowUpContractEvent) (e : ShowUpContractEvent)
    → entries_of id raws ≡ returned es
    → In e es ↔ ((raw : RawEvent) × In raw raws × IsEntryOf id raw e)
unfolding entries_of
entries_of_iff id [] [] e h = (λ x. absurd x, λ (raw, x, k). absurd x)
entries_of_iff id [] (f ∷ es) e h = cc
entries_of_iff id (raw ∷ raws) es e h =
    let (x, rest, p, q, r) = one_entry id (entry_of id raw) (entries_of id raws) es h in
    let (forth, back) = entries_of_iff id raws rest e q in
    let (out, into) = In-push x rest e in
    (
      λ m. elim (out (rw (← r) at m)) [
        | inl here ↦ (raw, inl refl, (entry_of_iff id raw e).0 (p ∙ ap (λ o. returned o) here))
        | inr later ↦ let (raw2, at, k) = forth later in (raw2, inr at, k)
      ],
      λ (raw2, at, k). rw r at (
          into (elim at [
            | inl here ↦
                let read : entry_of id raw2 ≡ returned (some e) = (entry_of_iff id raw2 e).1 k in
                inl (returned-some id raw raw2 x e here p read)
            | inr later ↦ inr (back (raw2, later, k))
          ])),
    )
