-- ===== src/Channel/ThreadTests.antt =====
-- A run of the threads of the SPI channel: a message is sent, and one is received and taken up.
use clibdpa.Base.{
  ℕ, suc, ◌≡◌, refl, true, List, [], ◌∷◌, ◌++◌, none, some, replicate, length-replicate, ◌==◌,
}
use clibdpa.TaskQueue
use clibdpa.TaskQueue.{checking, waiting, processing, worker_step, push_to_queue}
use clibdpa.Channel.Spi.{SpiDriver, open_channel, attempt, poll, push_data}
use clibdpa.Channel.SpiThreads.{
  Threads, Reach, at_start, watched, calls, tries, polls, pushes, works, here, next,
}
use clibdpa.Channel.SpiPolling.{Fills}
use clibdpa.Channel.SpiExchange.{unpushed, Reach-exchanged}

-- The world is the number of status calls. Three bytes wait at the first; the module is ready for
-- writing.
abbrev exact : SpiDriver ℕ
exact = record {
  get_spi_status =
      λ w. (suc w, true, record { is_data_ready = w == 0; ready_comm = true; data_ready = 3 });
  spi_write = λ m w. (w, true);
  spi_read = λ n w. (w, true, replicate n 7);
}

exact-Fills : Fills exact
exact-Fills n w e = length-replicate {A = ℕ} n 7

abbrev message : List ℕ
message = 1 ∷ 0 ∷ 6 ∷ 3 ∷ []

abbrev received : List ℕ
received = 7 ∷ 7 ∷ 7 ∷ []

abbrev begun : Threads ℕ ℕ
begun = at_start exact 0

abbrev polled : Threads ℕ ℕ
polled = record begun {
  channel = (poll (watched exact) begun.channel begun.world).0;
  world = (1, record { written = []; read = received ∷ [] });
  listener = some 3;
}

reach_polled : Reach exact 0 polled
unfolding poll open_channel
reach_polled = next here (polls polled.channel 3 polled.world refl refl refl refl)

abbrev calling : Threads ℕ ℕ
calling = record polled { sending = some (8, message) }

reach_calling : Reach exact 0 calling
reach_calling = next reach_polled (calls message refl refl)

abbrev written : Threads ℕ ℕ
written = record calling {
  world = (2, record { written = message ∷ []; read = received ∷ [] });
  sending = none;
  sent = message ∷ [];
}

reach_written : Reach exact 0 written
unfolding attempt
reach_written = next reach_calling (tries 7 message written.world true refl refl refl)

abbrev queued : Threads ℕ ℕ
queued = record written {
  channel = push_data written.channel 3;
  listener = none;
  pushed = received ∷ [];
}

reach_queued : Reach exact 0 queued
unfolding poll open_channel
reach_queued = next reach_written (pushes 3 refl refl refl)

abbrev resting : Threads ℕ ℕ
resting = record queued { worker = waiting }

reach_resting : Reach exact 0 resting
unfolding poll open_channel push_data worker_step TaskQueue.new
reach_resting = next reach_queued (works queued.channel.m_receive_message_queue waiting refl refl)

Reach-exchanged_example :
    (resting.taken
        ++ resting.channel.m_receive_message_queue.m_task_queue
        ++ unpushed none resting.channel.m_rx
      ≡ received ∷ [])
    × (message ∷ [] ≡ resting.sent)
Reach-exchanged_example = Reach-exchanged exact exact-Fills reach_resting
