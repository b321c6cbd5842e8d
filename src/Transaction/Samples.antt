-- ===== src/Transaction/Samples.antt =====
-- Messages and transactions of the program's shape: reading the OS information of the coordinator, and
-- pulsing a LED of node 1.
use clibdpa.Base.{ℕ, List, [], ◌∷◌, overwrite, arith}
use clibdpa.Base.Int.{pos}
use clibdpa.Message.{DpaMessage, empty_packet}
use clibdpa.Timing.{std, TimingParams}
use clibdpa.Transaction.Types.{Transaction}
use clibdpa.Transaction.Create.{create}
use clibdpa.Transaction.Invariant.{IsNew}
use clibdpa.Transaction.Outcome.{create-IsNew}

abbrev pub of_bytes : List ℕ → ℕ → DpaMessage
of_bytes xs n = record { buffer = overwrite xs empty_packet; m_length = n }

abbrev pub os_read : DpaMessage
os_read = of_bytes (0 ∷ 0 ∷ 2 ∷ 0 ∷ 255 ∷ 255 ∷ []) 6

abbrev pub os_answer : DpaMessage
os_answer = of_bytes (0 ∷ 0 ∷ 2 ∷ 0x80 ∷ 0 ∷ 0 ∷ 0 ∷ 53 ∷ []) 8

abbrev pub pulse : DpaMessage
pulse = of_bytes (1 ∷ 0 ∷ 6 ∷ 3 ∷ 255 ∷ 255 ∷ []) 6

abbrev pub pulse_confirmation : DpaMessage
pulse_confirmation = of_bytes (1 ∷ 0 ∷ 6 ∷ 3 ∷ 255 ∷ 255 ∷ 255 ∷ 53 ∷ 1 ∷ 6 ∷ 1 ∷ []) 11

abbrev pub pulse_answer : DpaMessage
pulse_answer = of_bytes (1 ∷ 0 ∷ 6 ∷ 0x83 ∷ 0 ∷ 0 ∷ 0 ∷ 53 ∷ []) 8

abbrev pub params : TimingParams
params = record {
  bonded_nodes = 1;
  discovered_nodes = 1;
  frc_response_time = 0;
  os_version = "4.02D";
  dpa_version = 0x0302;
}

-- A transaction with the default timeout of 500 ms and a user's timeout of 1000 ms.
abbrev pub fresh : DpaMessage → Transaction
fresh m = create m std params (pos 500) (pos 1000) (pos 0) 0 7

pub fresh-IsNew : (m : DpaMessage) → IsNew (fresh m)
fresh-IsNew m =
    create-IsNew m std params 500 (pos 1000) (pos 0) 0 7 (omega arith) (omega arith) (omega arith)
