-- ===== src/Channel/SpiExchange.antt =====
-- What the threads of the SPI channel make of the messages: each that is sent and each that is received.
use mathlib.Core.List.{append-nil}
use clibdpa.Base.{
  ℕ, ◌≡◌, refl, sym, ap, subst, ◌∙◌, Bool, true, false, List, [], ◌∷◌, ◌++◌, Option, none, some,
  if◌then◌else◌, ◌==◌, length, take, length-replicate, Bool-cases, inl, inr,
}
use clibdpa.TaskQueue.Steps as QueueSteps
use clibdpa.TaskQueue.Fifo.{Reach-InOrder}
use clibdpa.Channel.Spi.{
  SpiDriver, spi_rec_buffer_size, open_channel, push_data, close_channel,
  register_receive_from_handler, unregister_receive_from_handler,
}
use clibdpa.Channel.SpiListening.{IsSized}
use clibdpa.Channel.SpiThreads.{
  DriverLog, read_string, Threads, Step, Reach, calls, tries, drops, polls, pushes, works,
  registers, unregisters, closes, drifts, here, next,
}
use clibdpa.Channel.SpiPolling.{Fills, attempt-log, Polled, poll-Polled}

-- What the listening thread has read and not pushed yet.
abbrev pub unpushed : Option ℕ → List ℕ → List (List ℕ)
unpushed none rx = []
unpushed (some rec_data) rx = read_string rec_data rx

module _ {W : Type 0} (d : SpiDriver W) where
  module _ {F : Type 0} (fills : Fills d) where
    -- The receive queue, with what was pushed to it and taken from it.
    abbrev through_queue : Threads F W → QueueSteps.System (List ℕ)
    through_queue s = record {
      queue = s.channel.m_receive_message_queue;
      worker = s.worker;
      pushed = s.pushed;
      taken = s.taken;
    }

    record Kept (s : Threads F W) : Type 0 where
      sized : IsSized s.channel
      queued : QueueSteps.Reach QueueSteps.start (through_queue s)
      read : s.world.1.read ≡ s.pushed ++ unpushed s.listener s.channel.m_rx
      written : s.world.1.written ≡ s.sent

    tried :
        (s : Threads F W) (left : ℕ) (message : List ℕ) (v : W × DriverLog) (written : Bool)
        → (v.1.read ≡ s.world.1.read)
          × (v.1.written
              ≡ (if written then s.world.1.written ++ message ∷ [] else s.world.1.written))
        → Kept s
        → Kept (record s {
          world = v;
          sending = if written then none else some (left, message);
          sent = if written then s.sent ++ message ∷ [] else s.sent;
        })
    tried s left message v true (r, w) k = record {
      sized = k.sized;
      queued = k.queued;
      read = r ∙ k.read;
      written = w ∙ ap (λ l. l ++ message ∷ []) k.written;
    }
    tried s left message v false (r, w) k = record {
      sized = k.sized;
      queued = k.queued;
      read = r ∙ k.read;
      written = w ∙ k.written;
    }

    pushed :
        (s : Threads F W) (rec_data : ℕ)
        → s.listener ≡ some rec_data
        → QueueSteps.holds_lock s.worker ≡ false
        → Kept s
        → Kept (record s {
          channel = push_data s.channel rec_data;
          listener = none;
          pushed = s.pushed ++ read_string rec_data s.channel.m_rx;
        })
    unfolding push_data
    pushed s rec_data e l k =
        let r : s.world.1.read ≡ s.pushed ++ read_string rec_data s.channel.m_rx =
          subst (λ o. s.world.1.read ≡ s.pushed ++ unpushed o s.channel.m_rx) e k.read in
        elim (Bool-cases (rec_data == 0)) [
          | inl z ↦
              rw (z, push_data)
                (record {
                  sized = k.sized;
                  queued =
                      subst
                        (λ q.
                          QueueSteps.Reach QueueSteps.start
                            (record (through_queue s) { pushed = q }))
                        (sym (append-nil s.pushed)) k.queued;
                  read = (rw z at r) ∙ sym (append-nil (s.pushed ++ []));
                  written = k.written;
                })
          | inr z ↦
              rw (z, push_data)
                (record {
                  sized = k.sized;
                  queued = QueueSteps.next k.queued (QueueSteps.pushes _ l refl);
                  read =
                      (rw z at r)
                      ∙ sym (append-nil (s.pushed ++ take rec_data s.channel.m_rx ∷ []));
                  written = k.written;
                })
        ]

    -- A step that leaves the log, the buffer, the queue and what was sent.
    still :
        (s u : Threads F W)
        → u.channel.m_rx ≡ s.channel.m_rx
        → through_queue u ≡ through_queue s
        → u.listener ≡ s.listener
        → u.world.1 ≡ s.world.1
        → u.sent ≡ s.sent
        → Kept s
        → Kept u
    still s u x q l w e k = record {
      sized = ap length x ∙ k.sized;
      queued = subst (QueueSteps.Reach QueueSteps.start) (sym q) k.queued;
      read = ap (λ v. v.read) w ∙ k.read ∙ cc (ap (λ v. v.pushed) q, x, l);
      written = ap (λ v. v.written) w ∙ k.written ∙ sym e;
    }

    Step-Kept : {s u : Threads F W} → Step d s u → Kept s → Kept u
    unfolding register_receive_from_handler unregister_receive_from_handler close_channel
    Step-Kept {s} (calls message i e) k = subst Kept (sym e) (still s _ refl refl refl refl refl k)
    Step-Kept {s} (tries left message v written i a e) k = subst Kept (sym e) (
        tried s left message v written
          (subst
            (λ r.
              (r.0.1.read ≡ s.world.1.read)
              × (r.0.1.written
                  ≡ (if r.1 then s.world.1.written ++ message ∷ [] else s.world.1.written)))
            a (attempt-log d message s.world))
          k)
    Step-Kept {s} (drops message i e) k = subst Kept (sym e) (still s _ refl refl refl refl refl k)
    Step-Kept {s} (polls c rec_data v i run p e) k = subst Kept (sym e) (
        let (z, q, w, r) =
          subst (Polled d fills s.channel s.world.1) p
            (poll-Polled d fills s.channel s.world k.sized) in
        record {
          sized = z;
          queued =
              subst
                (λ t. QueueSteps.Reach QueueSteps.start (record (through_queue s) { queue = t }))
                (sym q) k.queued;
          read =
              r
              ∙ ap (λ l. l ++ read_string rec_data c.m_rx)
                  (k.read
                    ∙ ap (λ o. s.pushed ++ unpushed o s.channel.m_rx) i
                    ∙ append-nil s.pushed);
          written = w ∙ k.written;
        })
    Step-Kept {s} (pushes rec_data i l e) k = subst Kept (sym e) (pushed s rec_data i l k)
    Step-Kept {s} (works q w f e) k = subst Kept (sym e) (record {
      sized = k.sized;
      queued = QueueSteps.next k.queued (QueueSteps.works q w f refl);
      read = k.read;
      written = k.written;
    })
    Step-Kept {s} (registers f e) k = subst Kept (sym e) (still s _ refl refl refl refl refl k)
    Step-Kept {s} (unregisters e) k = subst Kept (sym e) (still s _ refl refl refl refl refl k)
    Step-Kept {s} (closes e) k = subst Kept (sym e) (still s _ refl refl refl refl refl k)
    Step-Kept {s} (drifts w e) k = subst Kept (sym e) (still s _ refl refl refl refl refl k)

    Reach-Kept : {w : W} {s : Threads F W} → Reach d w s → Kept s
    unfolding open_channel
    Reach-Kept here = record {
      sized = length-replicate {A = ℕ} spi_rec_buffer_size 0;
      queued = QueueSteps.here;
      read = refl;
      written = refl;
    }
    Reach-Kept (next r st) = Step-Kept st (Reach-Kept r)

    -- In every state that the threads of the channel reach, for every driver that reads as many bytes as
    -- it is asked for, by any order of calls of sendTo, attempts, polls, pushes and wakes, and whatever
    -- happens to the device: the strings that the driver read are, in order, those that the queue's
    -- worker took up for the user's function, those in the queue, and at most one that the listening
    -- thread is about to push; and the strings that the driver wrote are, in order, the messages whose
    -- sendTo has reported them as written, each once.
    pub Reach-exchanged :
        {w : W} {s : Threads F W}
        → Reach d w s
        → (s.taken
              ++ s.channel.m_receive_message_queue.m_task_queue
              ++ unpushed s.listener s.channel.m_rx
            ≡ s.world.1.read)
          × (s.world.1.written ≡ s.sent)
    Reach-exchanged {s} r =
        let k = Reach-Kept r in
        (
          ap (λ l. l ++ unpushed s.listener s.channel.m_rx) (Reach-InOrder k.queued) ∙ sym k.read,
          k.written,
        )
