-- ===== src/Bond/Sample.antt =====
-- A concrete host: storage in memory, and a ledger that is a function. Both keep the laws of Host.
use showup.Prelude.{
  ℕ, ◌+◌, ◌-◌, ◌≤◌, String, ◌&&◌, Option, none, some, ◌≡◌, refl, arith, str_eq, eq_iff, ◌==◌, subst,
  inl, inr, Bool-cases, leb, if◌then◌else◌,
}
use showup.Prelude.Int.{ℤ, pos, negsuc}
use showup.Bond.Types.{Config, Event, Reservation}
use showup.Bond.Host.{HostStorage, IsStorage, Token, IsToken}
use showup.Bond.Invariant.Closing.{some-eq}
use showup.Bond.Invariant.Opening.{none-some}

pub record Memory : Type 0 where
  pub config : Option Config
  pub count : Option ℕ
  pub event : ℕ → Option Event
  pub reservation : ℕ → String → Option Reservation

abbrev pub memory : HostStorage Memory
memory = record {
  read_config = λ s. s.config;
  write_config = λ s c. record s { config = some c };
  read_count = λ s. s.count;
  write_count = λ s n. record s { count = some n };
  read_event = λ s j. s.event j;
  write_event = λ s id e. record s { event = λ j. if id == j then some e else s.event j };
  read_reservation = λ s j q. s.reservation j q;
  write_reservation = λ s id p r. record s {
    reservation = λ j q. if id == j && str_eq p q then some r else s.reservation j q;
  };
}

pub memory-IsStorage : IsStorage memory
memory-IsStorage = record {
  config_after_config = λ s c. refl;
  count_after_config = λ s c. refl;
  event_after_config = λ s c j. refl;
  reservation_after_config = λ s c j q. refl;
  config_after_count = λ s n. refl;
  config_after_event = λ s id e. refl;
  config_after_reservation = λ s id p r. refl;
  count_after_count = λ s n. refl;
  count_after_event = λ s id e. refl;
  count_after_reservation = λ s id p r. refl;
  event_after_count = λ s n j. refl;
  event_after_event = λ s id e j. refl;
  event_after_reservation = λ s id p r j. refl;
  reservation_after_count = λ s n j q. refl;
  reservation_after_event = λ s id e j q. refl;
  reservation_after_reservation = λ s id p r j q. refl;
}

abbrev pub Accounts : Type 0
Accounts = String → ℕ

abbrev debit : Accounts → String → ℕ → Accounts
debit l a n x = if str_eq a x then l x - n else l x

abbrev credit : Accounts → String → ℕ → Accounts
credit l b n x = if str_eq b x then l x + n else l x

abbrev move : Accounts → String → String → ℤ → Option Accounts
move l a b (pos n) = if leb n (l a) then some (credit (debit l a n) b n) else none
move l a b (negsuc n) = none

abbrev pub accounts : Token Accounts
accounts = record { balance = λ l x. l x; transfer = move }

moved :
    (l : Accounts) (a b : String) (n : ℕ) (x : String)
    → n ≤ l a
    → credit (debit l a n) b n x + (if str_eq a x then n else 0)
      ≡ l x + (if str_eq b x then n else 0)
moved l a b n x le = elim (Bool-cases (str_eq a x)) [
  | inl here ↦
      let is : a ≡ x = (eq_iff a x).0 here in let enough : n ≤ l x = rw is at le in ground arith
  | inr there ↦ ground arith
]

pub accounts-IsToken : IsToken accounts
accounts-IsToken = record {
  moves_nothing_negative = λ l a b n. refl;
  moves = λ l l' a b n x e. elim (Bool-cases (leb n (l a))) [
    | inl enough ↦
        let same : credit (debit l a n) b n ≡ l' = some-eq (rw enough at e) in
        subst
          (λ (m : Accounts).
            m x + (if str_eq a x then n else 0) ≡ l x + (if str_eq b x then n else 0))
          same (moved l a b n x (ground arith))
    | inr short ↦ absurd (none-some l' (rw short at e))
  ];
}
