-- ===== src/Contract/EventLog/Pages.antt =====
-- `readEventLog`: the pages one after the other, until one is not full.
use showup.Prelude.{
  ℕ, zero, suc, ◌+◌, ◌≤◌, ◌<◌, String, Bool, true, false, Option, none, some, List, [], ◌++◌, ◌≡◌,
  arith, str_eq, is_truthy, ltb, length, if◌then◌else◌, any, ◌∙◌,
}
use mathlib.Core.List.{append_assoc}
use showup.Prelude.Outcome.{Outcome, returned, thrown, ◌>>=◌}
use showup.Contract.EventLog.Entries.{
  LogFailure, same_cursor_twice, RawEvent, ShowUpContractEvent, event_created, entries_of,
}

-- `EVENT_PAGE_SIZE`.
abbrev pub event_page_size : ℕ
event_page_size = 100

-- `EventLogRetention`.
pub record EventLogRetention : Type 0 where
  pub oldest_ledger : ℕ
  pub latest_ledger : ℕ
  pub oldest_ledger_close_time : String
  pub latest_ledger_close_time : String

-- The server's answer to `getEvents`.
pub record Page : Type 0 where
  pub events : List RawEvent
  pub cursor : String
  pub retention : EventLogRetention

-- `EventLogSnapshot`.
pub record EventLogSnapshot : Type 0 where
  pub entries : List ShowUpContractEvent
  pub history_complete : Bool
  pub retention : EventLogRetention

-- All pages read, with the retention of the last.
pub record Pages : Type 0 where
  pub events : List RawEvent
  pub retention : EventLogRetention

-- The cursor of the request; an empty one asks from the oldest ledger on, as none does.
abbrev pub asked : Option String → Option String
asked c = if is_truthy c then c else none

-- `response.cursor === cursor`.
abbrev pub same_cursor : String → Option String → Bool
same_cursor s none = false
same_cursor s (some c) = str_eq s c

-- The end of a round, with the rounds after it; `none` stands for rounds that have run out.
abbrev pub page_round :
    List RawEvent
    → Option String
    → (List RawEvent → String → Option (Outcome LogFailure Pages))
    → Outcome LogFailure Page
    → Option (Outcome LogFailure Pages)
page_round before cursor rest (thrown e) = some (thrown e)
page_round before cursor rest (returned p) =
    if ltb (length p.events) event_page_size
    then some (returned (record { events = before ++ p.events; retention = p.retention }))
    else if same_cursor p.cursor cursor
    then some (thrown same_cursor_twice)
    else rest (before ++ p.events) p.cursor

abbrev pub is_created : ShowUpContractEvent → Bool
is_created (event_created m id o b c) = true
is_created _ = false

abbrev pub snapshot :
    ℕ → Option (Outcome LogFailure Pages) → Option (Outcome LogFailure EventLogSnapshot)
snapshot id none = none
snapshot id (some pages) = some (
    pages >>= λ p. entries_of id p.events >>= λ entries. returned (record {
      entries = entries;
      history_complete = any is_created entries;
      retention = p.retention;
    }))

-- `get_events n` is what the server answers to the request of round `n`; what `getHealth` or the topic
-- filter throws before the first request is thrown by that request.
module _ (get_events : ℕ → Option String → Outcome LogFailure Page) where
  -- The loop: rounds left, round, cursor, and the events so far.
  unfoldable pub read_pages :
      ℕ → ℕ → Option String → List RawEvent → Option (Outcome LogFailure Pages)
  read_pages zero n cursor before = none
  read_pages (suc rounds) n cursor before =
      page_round before cursor (λ all next. read_pages rounds (suc n) (some next) all)
        (get_events n (asked cursor))

  -- `readEventLog`, for at most `rounds` pages.
  unfoldable pub read_event_log : ℕ → ℕ → Option (Outcome LogFailure EventLogSnapshot)
  read_event_log rounds id = snapshot id (read_pages rounds 0 none [])

  module _ (pages : ℕ → Page) (m : ℕ) where
    -- The cursor of round `n`.
    abbrev pub cursor_at : ℕ → Option String
    cursor_at zero = none
    cursor_at (suc n) = some (pages n).cursor

    -- The events of `k + 1` pages from the `n`-th on.
    abbrev pub gathered : ℕ → ℕ → List RawEvent
    gathered n zero = (pages n).events
    gathered n (suc k) = (pages n).events ++ gathered (suc n) k

    module _ (served : (n : ℕ) → n ≤ m → get_events n (asked (cursor_at n)) ≡ returned (pages n))
        (full : (n : ℕ) → n < m → ltb (length (pages n).events) event_page_size ≡ false)
        (moved : (n : ℕ) → n < m → same_cursor (pages n).cursor (cursor_at n) ≡ false)
        (last : ltb (length (pages m).events) event_page_size ≡ true) where
      pages-read :
          (k rounds n : ℕ) (before : List RawEvent)
          → n + k ≡ m
          → k < rounds
          → read_pages rounds n (cursor_at n) before
            ≡ some (
                returned
                  (record { events = before ++ gathered n k; retention = (pages m).retention }))
      unfolding read_pages
      pages-read k zero n before e h = absurd (omega arith)
      pages-read zero (suc rounds) n before e h =
          let here : m ≡ n = omega arith in
          let short : ltb (length (pages n).events) event_page_size ≡ true = rw here at last in
          rw (served n (omega arith), short) (rw here)
      pages-read (suc k) (suc rounds) n before e h =
          rw (served n (omega arith), full n (omega arith), moved n (omega arith))
            (pages-read k rounds (suc n) (before ++ (pages n).events) (omega arith) (omega arith)
              ∙ rw (append_assoc before (pages n).events (gathered (suc n) k)))

      -- Where the server answers every round, each page but the last is full and moves the cursor on,
      -- and the rounds suffice, the log is made of the events of all the pages in order, none lost or
      -- taken twice, with the retention of the last page; and its history is complete exactly when the
      -- event's creation is among the entries.
      pub read_event_log_lem :
          (rounds id : ℕ)
          → m < rounds
          → read_event_log rounds id
            ≡ some (
                entries_of id (gathered 0 m) >>= λ entries. returned (record {
                  entries = entries;
                  history_complete = any is_created entries;
                  retention = (pages m).retention;
                }))
      unfolding read_event_log
      read_event_log_lem rounds id h = rw (pages-read m rounds 0 [] (omega arith) h)
