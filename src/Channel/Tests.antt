-- ===== src/Channel/Tests.antt =====
-- Drivers that answer from a script.
use clibdpa.Base.{
  ℕ, suc, ◌≤◌, ◌≡◌, ◌⊎◌, refl, true, false, not, List, [], ◌∷◌, ◌++◌, leb, ◌==◌, if◌then◌else◌,
}
use clibdpa.Channel.Spi
use clibdpa.Channel.Spi.{
  SpiDriver, SpiStatus, SpiChannel, open_channel, listen_round, spi_rec_buffer_size, State, ready,
  get_state,
}
use clibdpa.Channel.SpiSending
use clibdpa.Channel.SpiSending.{SpiLog, send_to-once}
use clibdpa.Channel.SpiListening.{IsSized}
use clibdpa.Channel.Cdc
use clibdpa.Channel.Cdc.{CdcDriver}
use clibdpa.Channel.CdcSending
use clibdpa.Channel.CdcSending.{Tried, send_to-Tried}

-- The world is the number of status calls. The module is ready from the third on, and three bytes
-- wait all the time.
abbrev spi : SpiDriver ℕ
spi = record {
  get_spi_status =
      λ w. (suc w, true, record { is_data_ready = true; ready_comm = leb 2 w; data_ready = 3 });
  spi_write = λ m w. (w, true);
  spi_read = λ n w. (w, true, 7 ∷ 8 ∷ 9 ∷ []);
}

abbrev message : List ℕ
message = 1 ∷ 0 ∷ 6 ∷ 3 ∷ []

abbrev no_calls : SpiLog
no_calls = record { calls = 0; written = [] }

send_to-third : Spi.send_to spi (λ w. w) message 0 ≡ (3, true)
unfolding Spi.send_to
send_to-third = refl

send_to-dropped :
    Spi.send_to (record spi { spi_write = λ m w. (w, false) }) (λ w. w) message 0 ≡ (8, false)
unfolding Spi.send_to
send_to-dropped = refl

get_state-ready : get_state spi (λ w. w) 5 ≡ (7, ready)
unfolding get_state
get_state-ready = refl

send_to-once_example :
    let (v, written) =
      Spi.send_to (SpiSending.logged spi) (SpiSending.unlogged (λ w. w)) message (0, no_calls) in
    (v.1.written ≡ [] ++ (if written then message ∷ [] else []))
    × (v.1.calls ≤ 8)
    × ((v.1.calls ≡ 8) ⊎ (written ≡ true))
send_to-once_example = send_to-once spi (λ w. w) message 0 no_calls

abbrev channel : SpiChannel ℕ
channel = open_channel

channel-IsSized : IsSized channel
unfolding open_channel
channel-IsSized = refl

-- The world is the script of responses that are left: 1 is BUSY, 0 is OK, and an empty script is an
-- error.
abbrev answer : List ℕ → List ℕ × ℕ
answer [] = ([], 2)
answer (r ∷ rs) = (rs, r)

abbrev cdc : CdcDriver (List ℕ) ℕ
cdc = record { send_data = λ m w. answer w; is_busy = λ r. r == 1; is_ok = λ r. r == 0 }

send_to-fourth : Cdc.send_to cdc (λ w. w) message (1 ∷ 1 ∷ 1 ∷ 0 ∷ []) ≡ ([], false)
unfolding Cdc.send_to
send_to-fourth = refl

send_to-Tried_example :
    let (v, threw) =
      Cdc.send_to
        (CdcSending.logged cdc)
        (CdcSending.unlogged (λ w. w))
        message
        (1 ∷ 1 ∷ 0 ∷ [], []) in
    (last : ℕ) × Tried cdc (λ w. w) message 4 [] v.1 last × (threw ≡ not (last == 0))
send_to-Tried_example = send_to-Tried cdc (λ w. w) message (1 ∷ 1 ∷ 0 ∷ []) []
