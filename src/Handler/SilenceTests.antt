-- ===== src/Handler/SilenceTests.antt =====
-- A request that nobody answers, and the state of the threads while it is executed.
use clibdpa.Base.{
  ℕ, suc, ◌≡◌, ◌≢◌, ◌⊎◌, refl, Bool, true, false, List, [], ◌∷◌, ◌++◌, some, All, leb,
  if◌then◌else◌, get_elem?, arith,
}
use clibdpa.Message.Contents.{contents}
use clibdpa.TaskQueue.{size}
use clibdpa.TaskQueue
use clibdpa.Transaction.Types.{Transaction, request_of}
use clibdpa.Channel.Spi.{SpiDriver}
use clibdpa.Channel.SpiSending.{SpiLog, logged, unlogged}
use clibdpa.Handler.Types.{Handler, init}
use clibdpa.Handler.Submit.{execute_dpa_transaction, process_transaction, resume_transaction}
use clibdpa.Handler.Overload.{on_way, taken_up, process-on_way}
use clibdpa.Handler.SpiWire.{no_calls, spi_written-Sends}
use clibdpa.Handler.OnWire.{Sends}
use clibdpa.Handler.Silence.{TimesOut, over_spi, unanswered-TimesOut, spi_request-TimesOut}
use clibdpa.Handler.Uninterrupted.{Reach-process}
use clibdpa.Handler.Steps.{System, Reach, executing}
use clibdpa.Handler.OneAtATime.{Reach-one_at_a_time}
use clibdpa.Handler.NodeTests.{send_to, made, made-IsNew, made_plain, asking, asking_size}
use clibdpa.Handler.ThreadTests.{taking, reach_taking, taking_over, reach_taking_over}

unanswered-TimesOut_example :
    (h1 h2 : Handler ℕ) × (t : Transaction) × (process_transaction send_to 1 asking 0 5
      ≡ some (h1, (send_to (contents (request_of made)) 5).0))
    × (resume_transaction 1 h1 0 true ≡ some h2)
    × (get_elem? h2.store 0 ≡ some t)
    × TimesOut made t
unanswered-TimesOut_example =
    unanswered-TimesOut send_to asking 0 made 5 refl (omega (arith, asking_size)) made_plain.0
      made_plain.1 made-IsNew.paced

-- The world is the number of status calls; the module is ready from the tenth on.
abbrev late : SpiDriver ℕ
late = record {
  get_spi_status =
      λ w. (suc w, true, record { is_data_ready = false; ready_comm = leb 9 w; data_ready = 0 });
  spi_write = λ m w. (w, true);
  spi_read = λ n w. (w, false, []);
}

spi_request-TimesOut_example :
    (h1 h2 : Handler ℕ) × (t : Transaction) × (v : ℕ × SpiLog) × (written : Bool)
    × (process_transaction (over_spi (logged late) (unlogged (λ w. w))) 1 asking 0 (0, no_calls)
        ≡ some (h1, v))
    × (v.1.written ≡ [] ++ (if written then contents (request_of made) ∷ [] else []))
    × ((v.1.calls ≡ 8) ⊎ (written ≡ true))
    × (resume_transaction 1 h1 0 true ≡ some h2)
    × (get_elem? h2.store 0 ≡ some t)
    × TimesOut made t
spi_request-TimesOut_example =
    spi_request-TimesOut late (λ w. w) asking 0 made 0 no_calls refl (omega (arith, asking_size))
      made_plain.0 made_plain.1 made-IsNew.paced

executing_first : System ℕ ℕ
executing_first = record taking {
  handler = taken_up taking.handler 0 (on_way made);
  phase = executing 0;
  world = 6;
}

reach_executing : Reach send_to 5 executing_first
unfolding executing_first init execute_dpa_transaction TaskQueue.new size
reach_executing =
    Reach-process send_to 0 1 (taken_up taking.handler 0 (on_way made)) 6 reach_taking refl (
      process-on_way send_to taking.handler 0 made 5 refl (omega arith) made_plain.0
        made-IsNew.paced)

Reach-one_at_a_time_example :
    (before : List ℕ) × (0 ∷ [] ≡ before ++ 0 ∷ [])
    × All (λ i. i ≢ 0) before
    × All (λ i. i ≢ 0) executing_first.handler.m_dpa_transaction_queue.m_task_queue
    × (executing_first.handler.m_pending_transaction ≡ some 0)
unfolding executing_first
Reach-one_at_a_time_example = Reach-one_at_a_time send_to 0 reach_executing refl

-- The module is ready from the third call for its status on.
abbrev soon : SpiDriver ℕ
soon = record {
  get_spi_status =
      λ w. (suc w, true, record { is_data_ready = false; ready_comm = leb 2 w; data_ready = 0 });
  spi_write = λ m w. (w, true);
  spi_read = λ n w. (w, false, []);
}

abbrev over_soon : List ℕ → ℕ × SpiLog → (ℕ × SpiLog) × Bool
over_soon = over_spi (logged soon) (unlogged (λ w. w))

abbrev spi_taking : System ℕ (ℕ × SpiLog)
spi_taking = taking_over over_soon (0, no_calls)

spi_executing : System ℕ (ℕ × SpiLog)
spi_executing = record spi_taking {
  handler = taken_up spi_taking.handler 0 (on_way made);
  phase = executing 0;
  world = (over_soon (contents (request_of made)) (0, no_calls)).0;
}

reach_spi : Reach over_soon (0, no_calls) spi_executing
unfolding spi_executing init execute_dpa_transaction TaskQueue.new size
reach_spi =
    Reach-process over_soon 0 1 (taken_up spi_taking.handler 0 (on_way made)) _
      (reach_taking_over over_soon (0, no_calls)) refl
      (process-on_way over_soon spi_taking.handler 0 made (0, no_calls) refl (omega arith)
        made_plain.0 made-IsNew.paced)

spi_written-Sends_example :
    (begun : List ℕ) × (0 ∷ [] ≡ begun ++ [])
    × (spi_executing.taken ++ spi_executing.handler.m_dpa_transaction_queue.m_task_queue
        ≡ spi_executing.submitted)
    × Sends spi_executing.handler.store begun spi_executing.world.1.written
unfolding spi_executing
spi_written-Sends_example = spi_written-Sends soon (λ w. w) reach_spi
