-- ===== src/Qr/Scanner/Tests.antt =====
-- A camera that is stopped and started again while the first start still waits for its stream.
use showup.Prelude.{List, [], ◌∷◌, ◌≡◌, refl, true, arith}
use showup.Qr.Scanner.{Scanner, initial, text, Action, stop, start, frame, opened, act, acts}
use showup.Qr.Scanner.Streams.{IsTidy, opened_by, scanner-IsTidy}
use showup.Qr.Scanner.Stopped.{IsStopped, stop_is_final}

abbrev restarted : List Action
restarted =
    start true
    ∷ stop
    ∷ start true
    ∷ opened 1
    ∷ opened 3
    ∷ frame 1 (text "old")
    ∷ frame 3 (text "pass")
    ∷ frame 3 (text "pass")
    ∷ []

delivers_once : (acts restarted initial).delivered ≡ (3, "pass") ∷ []
unfolding acts act initial
delivers_once = refl

scanner-IsTidy_example : IsTidy (acts restarted initial) (opened_by restarted)
scanner-IsTidy_example = scanner-IsTidy restarted

abbrev running : Scanner
running = record initial { generation = 1 }

stop_is_final_example :
    IsStopped running (acts (opened 1 ∷ frame 1 (text "old") ∷ []) (act stop running))
unfolding initial
stop_is_final_example =
    stop_is_final (opened 1 ∷ frame 1 (text "old") ∷ []) running (omega arith, (omega arith, tt))
