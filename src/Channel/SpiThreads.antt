-- ===== src/Channel/SpiThreads.antt =====
-- The threads of the SPI channel: one that calls sendTo, the listening thread, and the worker of the queue
-- of received messages. What holds m_commMutex is one step, and so is the push to the queue.
use clibdpa.Base.{
  ℕ, zero, suc, ◌≡◌, Bool, true, false, List, [], ◌∷◌, ◌++◌, Option, none, some, if◌then◌else◌,
  ◌==◌, take,
}
use clibdpa.TaskQueue.{TaskQueue, Worker, checking, worker_step}
use clibdpa.TaskQueue.Steps.{holds_lock, taken_up}
use clibdpa.Channel.Spi.{
  SpiDriver, SpiChannel, attempts, attempt, poll, push_data, close_channel, open_channel,
  register_receive_from_handler, unregister_receive_from_handler,
}

-- The strings that the driver wrote, and those of one byte or more that it read, in order.
pub record DriverLog : Type 0 where
  pub written : List (List ℕ)
  pub read : List (List ℕ)

abbrev pub no_log : DriverLog
no_log = record { written = []; read = [] }

-- A string of so many bytes that was read.
abbrev pub read_string : ℕ → List ℕ → List (List ℕ)
read_string n bytes = if n == 0 then [] else take n bytes ∷ []

-- The driver with the log.
abbrev pub watched : {W : Type 0} → SpiDriver W → SpiDriver (W × DriverLog)
watched d = record {
  get_spi_status = λ v. let r = d.get_spi_status v.0 in ((r.0, v.1), r.1, r.2);
  spi_write = λ m v.
      let r = d.spi_write m v.0 in
      ((r.0, if r.1 then record (v.1) { written = v.1.written ++ m ∷ [] } else v.1), r.1);
  spi_read = λ n v.
      let r = d.spi_read n v.0 in
      ((r.0, if r.1 then record (v.1) { read = v.1.read ++ read_string n r.2 } else v.1), r.1, r.2);
}

-- `listener` is the number of bytes that the listening thread has read and not pushed yet; `sending` are
-- the attempts left of a call of sendTo, and its message. `sent` are the messages that sendTo reported as
-- written, `taken` those received that the queue's worker took up for the user's function, in order.
pub record Threads (F W : Type 0) : Type 0 where
  pub channel : SpiChannel F
  pub world : W × DriverLog
  pub listener : Option ℕ
  pub worker : Worker (List ℕ)
  pub sending : Option (ℕ × List ℕ)
  pub sent : List (List ℕ)
  pub pushed : List (List ℕ)
  pub taken : List (List ℕ)

module _ {F W : Type 0} (driver : SpiDriver W) where
  abbrev pub at_start : W → Threads F W
  at_start w = record {
    channel = open_channel;
    world = (w, no_log);
    listener = none;
    worker = checking false;
    sending = none;
    sent = [];
    pushed = [];
    taken = [];
  }

  -- sendTo is called; an attempt of it, up to its wait; the attempts have run out. The listening thread
  -- polls the driver while it is to run, and pushes what it read. The worker of the queue goes on; a
  -- function is registered or unregistered; the channel is closed; and something else happens to the
  -- device.
  pub data Step (s u : Threads F W) : Type 0 where
    calls :
        (message : List ℕ)
        → s.sending ≡ none
        → u ≡ record s { sending = some (attempts, message) }
        → Step s u
    tries :
        (left : ℕ) (message : List ℕ) (v : W × DriverLog) (written : Bool)
        → s.sending ≡ some (suc left, message)
        → attempt (watched driver) (λ w. w) message s.world ≡ (v, written)
        → u ≡ record s {
          world = v;
          sending = if written then none else some (left, message);
          sent = if written then s.sent ++ message ∷ [] else s.sent;
        }
        → Step s u
    drops :
        (message : List ℕ)
        → s.sending ≡ some (zero, message)
        → u ≡ record s { sending = none }
        → Step s u
    polls :
        (c : SpiChannel F) (rec_data : ℕ) (v : W × DriverLog)
        → s.listener ≡ none
        → s.channel.m_run_listen_thread ≡ true
        → poll (watched driver) s.channel s.world ≡ (c, rec_data, v)
        → u ≡ record s { channel = c; world = v; listener = some rec_data }
        → Step s u
    pushes :
        (rec_data : ℕ)
        → s.listener ≡ some rec_data
        → holds_lock s.worker ≡ false
        → u ≡ record s {
          channel = push_data s.channel rec_data;
          listener = none;
          pushed = s.pushed ++ read_string rec_data s.channel.m_rx;
        }
        → Step s u
    works :
        (q : TaskQueue (List ℕ)) (w : Worker (List ℕ))
        → worker_step s.channel.m_receive_message_queue s.worker ≡ some (q, w)
        → u ≡ record s {
          channel = record (s.channel) { m_receive_message_queue = q };
          worker = w;
          taken = s.taken ++ taken_up w;
        }
        → Step s u
    registers :
        (f : F) → u ≡ record s { channel = register_receive_from_handler s.channel f } → Step s u
    unregisters : u ≡ record s { channel = unregister_receive_from_handler s.channel } → Step s u
    closes : u ≡ record s { channel = close_channel s.channel } → Step s u
    drifts : (w : W) → u ≡ record s { world = (w, s.world.1) } → Step s u

  pub data Reach (w : W) : Threads F W → Type 0 where
    here : Reach w (at_start w)
    next : {s u : Threads F W} → Reach w s → Step s u → Reach w u
