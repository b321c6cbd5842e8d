-- ===== src/Handler/Tests.antt =====
-- A handler whose user functions are numbers, and a channel that counts what it was given.
use clibdpa.Base.{
  ℕ, suc, ◌≡◌, refl, Bool, true, false, List, [], ◌∷◌, ◌++◌, none, some, if◌then◌else◌, leb,
  replicate, get_elem?, overwrite, ok, err, logic_error, arith,
}
use Prim.Native.String.{String}
use text.Mathlib.Text.{◌==◌ as str_eq}
use clibdpa.Base.Int.{pos, negsuc}
use clibdpa.Message.{DpaMessage, empty_packet}
use clibdpa.Timing.{std}
use clibdpa.TaskQueue.{size}
use clibdpa.Transaction.Types.{Transaction}
use clibdpa.Transaction.Create.{create}
use clibdpa.Transaction.Outcome.{create-IsNew}
use clibdpa.Transaction.Invariant.{IsNew}
use clibdpa.Transaction.Honesty.{code_of}
use clibdpa.Handler.Types.{Handler, init, initial_timing_params}
use clibdpa.Handler.Registry.{find, register_any_message_handler, unregister_any_message_handler}
use clibdpa.Handler.Submit.{execute_dpa_transaction, process_transaction}
use clibdpa.Handler.Defaults.{HasTimeout, init-HasTimeout, execute-IsNew}
use clibdpa.Handler.Handlers.{Unique, register-unregister}
use clibdpa.Handler.Overload.{process_overload}

abbrev request : DpaMessage
request = record { buffer = overwrite (1 ∷ 0 ∷ 6 ∷ 3 ∷ 255 ∷ 255 ∷ []) empty_packet; m_length = 6 }

abbrev answer : List ℕ
answer = 1 ∷ 0 ∷ 6 ∷ 0x83 ∷ 0 ∷ 0 ∷ 0 ∷ 53 ∷ []

-- The channel's world is the number of strings it was given; it throws from the third on.
abbrev send_to : List ℕ → ℕ → ℕ × Bool
send_to bytes w = (suc w, leb 2 w)

abbrev at_start : Handler ℕ
at_start = init

execute-IsNew_example :
    let (h, ptr) = execute_dpa_transaction at_start request (negsuc 0) (pos 0) 7 in
    (t : Transaction) × (h.store ≡ at_start.store ++ t ∷ [])
    × (get_elem? h.store ptr ≡ some t)
    × IsNew t
    × (h.m_dpa_transaction_queue.m_task_queue
        ≡ at_start.m_dpa_transaction_queue.m_task_queue ++ ptr ∷ [])
    × HasTimeout h
execute-IsNew_example =
    execute-IsNew at_start request (negsuc 0) (pos 0) 7 init-HasTimeout (omega arith)

abbrev with_handlers : Handler ℕ
with_handlers = record at_start { m_any_message_handler_map = ("gw", 1) ∷ ("mq", 2) ∷ [] }

handlers-Unique : Unique with_handlers.m_any_message_handler_map
unfolding find
handlers-Unique = (refl, (refl, tt))

ws_absent : find "ws" with_handlers.m_any_message_handler_map ≡ none
unfolding find
ws_absent = refl

register-unregister_example :
    (h : Handler ℕ) × (register_any_message_handler with_handlers "ws" 3 ≡ ok h)
    × ((j : String)
        → find j h.m_any_message_handler_map
          ≡ (if str_eq "ws" j then some 3 else find j with_handlers.m_any_message_handler_map))
    × ((g : ℕ) → register_any_message_handler h "ws" g ≡ err logic_error)
    × ((j : String)
        → find j (unregister_any_message_handler h "ws").m_any_message_handler_map
          ≡ find j with_handlers.m_any_message_handler_map)
register-unregister_example = register-unregister with_handlers "ws" 3 handlers-Unique ws_absent

abbrev made : Transaction
made = create request std initial_timing_params (pos 500) (negsuc 0) (pos 0) 0 7

made-IsNew : IsNew made
made-IsNew =
    create-IsNew request std initial_timing_params 500 (negsuc 0) (pos 0) 0 7 (omega arith)
      (omega arith) (omega arith)

made-default_error : made.m_default_error ≡ pos 0
unfolding create
made-default_error = refl

-- The queue's worker takes up the transaction while so many others wait.
abbrev crowded : ℕ → Handler ℕ
crowded n = record at_start {
  store = made ∷ [];
  m_dpa_transaction_queue = record {
    m_task_queue = replicate n 0;
    m_task_pushed = false;
    m_run_worker_thread = true;
  };
}

process_overload_example :
    (h : Handler ℕ) × (t : Transaction) × (process_transaction send_to 1 (crowded 16) 0 5
      ≡ some (h, 5))
    × (get_elem? h.store 0 ≡ some t)
    × (t.m_finish ≡ true)
    × (code_of t ≡ negsuc 1)
unfolding size
process_overload_example = process_overload send_to (crowded 16) 0 made 5 refl (omega arith)
