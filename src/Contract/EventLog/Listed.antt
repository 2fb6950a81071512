-- ===== src/Contract/EventLog/Listed.antt =====
-- The listing of an event's reservations names each participant once and is honest about what it lacks.
use showup.Prelude.{
  String, true, false, Option, none, some, List, [], ◌∷◌, ◌++◌, ◌≡◌, ◌⊎◌, ◌↔◌, inl, inr, refl,
  arith, str_eq, eq_iff, ap, ◌∙◌, In, Bool-cases,
}
use showup.Contract.EventLog.Entries.{ShowUpContractEvent}
use showup.Contract.EventLog.Reservations.{has, add, locked_by, add_locked, participants_from}

has_iff : (p : String) (set : List String) → (has p set ≡ true) ↔ In p set
has_iff p [] = (λ h. cc, λ h. absurd h)
has_iff p (q ∷ set) =
    let (forth, back) = has_iff p set in
    elim (Bool-cases (str_eq q p)) [
      | inl same ↦ (λ h. inl ((eq_iff q p).0 same), λ h. rw same refl)
      | inr differs ↦ (
        λ h. inr (forth (rw differs at h)),
        λ h. elim h [ inl e ↦ absurd (ground (arith, eq_iff q p)) | inr m ↦ rw differs (back m) ],
      )
    ]

In-end : (p q : String) (set : List String) → In p (set ++ (q ∷ [])) ↔ ((q ≡ p) ⊎ In p set)
In-end p q [] = (
  λ h. elim h [ inl e ↦ inl e | inr m ↦ absurd m ],
  λ h. elim h [ inl e ↦ inl e | inr m ↦ absurd m ],
)
In-end p q (r ∷ set) =
    let (forth, back) = In-end p q set in
    (
      λ h. elim h [
        | inl e ↦ inr (inl e)
        | inr m ↦ elim (forth m) [ inl e ↦ inl e | inr n ↦ inr (inr n) ]
      ],
      λ h. elim h [
        | inl e ↦ inr (back (inl e))
        | inr m ↦ elim m [ inl e ↦ inl e | inr n ↦ inr (back (inr n)) ]
      ],
    )

In-add : (p q : String) (set : List String) → In p (add q set) ↔ ((q ≡ p) ⊎ In p set)
In-add p q set = elim (Bool-cases (has q set)) [
  | inl there ↦ (
    λ h. inr (rw there at h),
    λ h. rw there (elim h [ inl e ↦ rw e at ((has_iff q set).0 there) | inr m ↦ m ]),
  )
  | inr new ↦ let (forth, back) = In-end p q set in (λ h. forth (rw new at h), λ h. rw new (back h))
]

In-add_locked :
    (p : String) (o : Option String) (set : List String)
    → In p (add_locked o set) ↔ ((o ≡ some p) ⊎ In p set)
In-add_locked p none set = (λ h. inr h, λ h. elim h [ inl e ↦ absurd (cc) | inr m ↦ m ])
In-add_locked p (some q) set =
    let (forth, back) = In-add p q set in
    (
      λ h. elim (forth h) [ inl e ↦ inl (ap (λ s. some s) e) | inr m ↦ inr m ],
      λ h. elim h [ inl e ↦ back (inl (cc)) | inr m ↦ back (inr m) ],
    )

pub In-participants_from :
    (p : String) (es : List ShowUpContractEvent) (set : List String)
    → In p (participants_from es set)
      ↔ (In p set ⊎ ((e : ShowUpContractEvent) × In e es × (locked_by e ≡ some p)))
unfolding participants_from
In-participants_from p [] set = (λ h. inl h, λ h. elim h [ inl m ↦ m | inr (e, m, l) ↦ absurd m ])
In-participants_from p (f ∷ es) set =
    let (forth, back) = In-participants_from p es (add_locked (locked_by f) set) in
    let (out, into) = In-add_locked p (locked_by f) set in
    (
      λ h. elim (forth h) [
        | inl m ↦ elim (out m) [ inl l ↦ inr (f, inl refl, l) | inr n ↦ inl n ]
        | inr (e, m, l) ↦ inr (e, inr m, l)
      ],
      λ h. elim h [
        | inl m ↦ back (inl (into (inr m)))
        | inr (e, m, l) ↦ elim m [
          | inl same ↦ back (inl (into (inl (ap locked_by same ∙ l))))
          | inr later ↦ back (inr (e, later, l))
        ]
      ],
    )

-- No element stands twice.
abbrev pub Distinct : List String → Type 0
Distinct [] = Unit
Distinct (p ∷ set) = (has p set ≡ false) × Distinct set

has-end :
    (p q : String) (set : List String)
    → has p set ≡ false
    → str_eq q p ≡ false
    → has p (set ++ (q ∷ [])) ≡ false
has-end p q [] h k = ground arith
has-end p q (r ∷ set) h k = ground (arith, has-end p q set)

Distinct-end :
    (q : String) (set : List String) → has q set ≡ false → Distinct set → Distinct (set ++ (q ∷ []))
Distinct-end q [] h d = (refl, tt)
Distinct-end q (p ∷ set) h (new, d) = (
  has-end p q set new (ground (arith, eq_iff p q, eq_iff q p)),
  Distinct-end q set (ground arith) d,
)

Distinct-add_locked :
    (o : Option String) (set : List String) → Distinct set → Distinct (add_locked o set)
Distinct-add_locked none set d = d
Distinct-add_locked (some q) set d = elim (Bool-cases (has q set)) [
  | inl there ↦ rw there d
  | inr new ↦ rw new (Distinct-end q set new d)
]

pub Distinct-participants_from :
    (es : List ShowUpContractEvent) (set : List String)
    → Distinct set
    → Distinct (participants_from es set)
unfolding participants_from
Distinct-participants_from [] set d = d
Distinct-participants_from (e ∷ es) set d =
    Distinct-participants_from es (add_locked (locked_by e) set)
      (Distinct-add_locked (locked_by e) set d)
