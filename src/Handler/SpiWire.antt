-- ===== src/Handler/SpiWire.antt =====
-- What the handler makes the SPI driver write.
use mathlib.Core.List.{append-nil}
use clibdpa.Base.{
  ℕ, ◌≡◌, ◌⊎◌, inl, inr, refl, sym, ap, subst, ◌∙◌, Bool, true, false, List, [], ◌∷◌, ◌++◌, some,
  ◌==◌, if◌then◌else◌, length, get_elem?, set,
}
use clibdpa.Message.{get_length}
use clibdpa.TaskQueue.{TaskQueue, Worker}
use clibdpa.Transaction.Types.{Transaction, request_of}
use clibdpa.Transaction.Execute.{abort}
use clibdpa.Transaction.Requests.{begin-request, cycles-request, receive-request}
use clibdpa.Handler.Types.{Handler, init}
use clibdpa.Handler.Submit.{make_transaction, shut_down}
use clibdpa.Handler.Pending.{OnlyPending, response_message_handler-OnlyPending}
use clibdpa.Handler.Forms.{begin-form, resume-form, shut_down-form}
use clibdpa.Channel.Spi.{SpiDriver, send_to}
use clibdpa.Channel.SpiSending.{SpiLog, logged, unlogged, send_to-once}
use clibdpa.Handler.Silence.{over_spi}
use clibdpa.Handler.Refinement.{Reach-in_submission_order}
use clibdpa.Handler.OnWire.{
  Sends, none_yet, Keeps, Keeps-Sends, Keeps-refl, Keeps-set, Keeps-append, between-none,
  sent_at_start, begun_on,
}
use clibdpa.Handler.Configured.{Configured-Rest}
use clibdpa.Handler.Steps.{
  System, about_to, moved, Step, Reach, makes, pushes, moves, picks, chooses, starts, resumes,
  returns, receives, aborts, configures, shuts_down, here, next,
}

abbrev pub no_calls : SpiLog
no_calls = record { calls = 0; written = [] }

over_spi-once :
    {W : Type 0} (d : SpiDriver W) (pause : W → W) (m : List ℕ) (v : W × SpiLog)
    → let v' = (over_spi (logged d) (unlogged pause) m v).0 in
      (v'.1.written ≡ v.1.written) ⊎ (v'.1.written ≡ v.1.written ++ m ∷ [])
over_spi-once d pause m v =
    let r = send_to (logged d) (unlogged pause) m v in
    written_by r.1 (send_to-once d pause m v.0 v.1).0
  where
    written_by :
        {log log' : List (List ℕ)} (written : Bool)
        → log' ≡ log ++ (if written then m ∷ [] else [])
        → (log' ≡ log) ⊎ (log' ≡ log ++ m ∷ [])
    written_by {log} true e = inr e
    written_by {log} false e = inl (e ∙ append-nil log)

-- Over a channel with a log, of which a call of sendTo adds its string once or not at all.
module _ {H W : Type 0} (send_to : List ℕ → W → W × Bool) (log : W → List (List ℕ))
    (once : (m : List ℕ) (w : W)
      → (log (send_to m w).0 ≡ log w) ⊎ (log (send_to m w).0 ≡ log w ++ m ∷ [])) where
  -- Of the transactions taken up, all but the one that the worker is about to begin on.
  abbrev OnWire : System H W → Type 0
  OnWire s =
      (begun : List ℕ) × (s.taken ≡ begun ++ about_to s.phase)
      × Sends s.handler.store begun (log s.world)

  -- A step in which nothing is taken up or sent.
  kept :
      (s : System H W) (h : Handler H) (references : List ℕ)
      → Keeps s.handler.store h.store
      → OnWire s
      → OnWire (record s { handler = h; held = references })
  kept s h references k (begun, e, o) = (begun, e, Keeps-Sends k o)

  one_kept :
      (s : System H W) (h : Handler H) (ptr : ℕ) (t t' : Transaction)
      → h.store ≡ set s.handler.store ptr t'
      → get_elem? s.handler.store ptr ≡ some t
      → request_of t' ≡ request_of t
      → OnWire s
      → OnWire (record s { handler = h })
  one_kept s h ptr t t' e g q k =
      kept s h s.held
        (subst (Keeps s.handler.store) (sym e) (Keeps-set s.handler.store ptr t t' g q)) k

  -- The worker went on in the queue.
  taken_on :
      (s : System H W) (w : Worker ℕ) (q : TaskQueue ℕ)
      → about_to s.phase ≡ []
      → OnWire s
      → OnWire (moved send_to s w q)
  taken_on s w q a (begun, b, o) = (
    s.taken,
    refl,
    subst (λ k. Sends s.handler.store k (log s.world))
        (sym (b ∙ ap (λ k. begun ++ k) a ∙ append-nil begun)) o,
  )

  ended_in :
      (s : System H W) (h : Handler H) (q : TaskQueue ℕ)
      → (h ≡ record (s.handler) { m_dpa_transaction_queue = q })
        ⊎ ((ptr : ℕ) × (t : Transaction) × (get_elem? s.handler.store ptr ≡ some t)
            × (h ≡ record (s.handler) {
              m_dpa_transaction_queue = q;
              store = set s.handler.store ptr (abort t);
            }))
      → OnWire s
      → OnWire (record s { handler = h })
  unfolding abort
  ended_in s h q (inl d) k =
      kept s h s.held
        (subst (Keeps s.handler.store) (sym (ap (λ j. j.store) d)) (Keeps-refl s.handler.store)) k
  ended_in s h q (inr (ptr, t, g, d)) k =
      one_kept s h ptr t (abort t) (ap (λ j. j.store) d) g refl k

  received :
      (s : System H W) (h : Handler H)
      → OnlyPending s.handler h
      → OnWire s
      → OnWire (record s { handler = h })
  received s h (inl e) k = subst (λ j. OnWire (record s { handler = j })) (sym e) k
  received s h (inr (ptr, t, t', m, now, _, g, r, e)) k =
      one_kept s h ptr t t' (ap (λ j. j.store) e) g (receive-request t m now r) k

  Step-OnWire : {s u : System H W} → Step send_to s u → OnWire s → OnWire u
  unfolding abort make_transaction
  Step-OnWire {s} (makes request timeout error now b e) k = subst OnWire (sym e) (
      kept s (make_transaction s.handler request timeout error now).0
        (if get_length request == 0 then s.held else s.held ++ length s.handler.store ∷ [])
        (Keeps-append s.handler.store _) k)
  Step-OnWire {s} (pushes before after ptr h l e) (begun, x, o) = subst OnWire (sym e) (begun, x, o)
  Step-OnWire {s} (moves w w' q p b st e) k =
      subst OnWire (sym e) (taken_on s w' q (ap about_to p ∙ between-none w b) k)
  Step-OnWire {s} (picks ptr p e) (begun, x, o) =
      subst OnWire (sym e) (begun, x ∙ ap (λ f. begun ++ about_to f) p, o)
  Step-OnWire {s} (chooses ptr t p g e) (begun, x, o) =
      subst OnWire (sym e) (begun, x ∙ ap (λ f. begun ++ about_to f) p, o)
  Step-OnWire {s} (starts ptr fuel error h v p st e) (begun, x, o) =
      let (t, t', g, b, c, d) = begin-form send_to fuel s.handler ptr error s.world st in
      let log' = sent_at_start send_to log once fuel t t' error s.world v b in
      subst OnWire (sym e) (
        begun ++ ptr ∷ [],
        x ∙ ap (λ f. begun ++ about_to f) p ∙ sym (append-nil (begun ++ ptr ∷ [])),
        Keeps-Sends
            (subst (Keeps s.handler.store) (sym (ap (λ j. j.store) d))
              (Keeps-set s.handler.store ptr t t' g (begin-request fuel t error c)))
            (begun_on send_to log once s.handler.store begun ptr t s.world v g log' o),
      )
  Step-OnWire {s} (resumes ptr fuel expired t h p g f st e) k =
      let (t0, t', g0, c, d) = resume-form fuel s.handler ptr expired st in
      subst OnWire (sym e)
        (one_kept s h ptr t0 t' (ap (λ j. j.store) d) g0 (cycles-request fuel t0 expired c) k)
  Step-OnWire {s} (returns ptr t w q p g f st e) k =
      subst OnWire (sym e) (taken_on s w q (ap about_to p) k)
  Step-OnWire {s} (receives bytes stale now h calls st e) k =
      subst OnWire (sym e)
        (received s h (response_message_handler-OnlyPending s.handler h bytes stale now calls st) k)
  Step-OnWire {s} (aborts i t g e) k = subst OnWire (sym e) (
      one_kept s (record (s.handler) { store = set s.handler.store i (abort t) }) i t (abort t) refl
        g refl k)
  Step-OnWire {s} (configures h c e) k = subst OnWire (sym e) (
      kept s h s.held
        (subst (Keeps s.handler.store) (sym (Configured-Rest c).store) (Keeps-refl s.handler.store))
        k)
  Step-OnWire {s} (shuts_down l e) k =
      let (q, d) = shut_down-form s.handler in
      subst OnWire (sym e) (ended_in s (shut_down s.handler) q d k)

  Reach-OnWire : {w : W} {s : System H W} → log w ≡ [] → Reach send_to w s → OnWire s
  unfolding init
  Reach-OnWire {w} e here = ([], refl, subst (Sends [] []) (sym e) none_yet)
  Reach-OnWire e (next r st) = Step-OnWire st (Reach-OnWire e r)

-- The handler over the SPI channel, for every driver, whatever it answers and whatever happens while
-- sendTo gives up the lock: in every state that the handler's threads reach, the transactions that the
-- worker has begun are the first that users pushed, in that order, and the strings that the driver wrote
-- are, in the same order, the bytes of the requests of some of these: for each transaction once or not
-- at all, and nothing else is written.
pub spi_written-Sends :
    {H W : Type 0} (d : SpiDriver W) (pause : W → W) {w : W} {s : System H (W × SpiLog)}
    → Reach (over_spi (logged d) (unlogged pause)) (w, no_calls) s
    → (begun : List ℕ) × (s.taken ≡ begun ++ about_to s.phase)
      × (s.taken ++ s.handler.m_dpa_transaction_queue.m_task_queue ≡ s.submitted)
      × Sends s.handler.store begun s.world.1.written
spi_written-Sends d pause {w} {s} r =
    let (begun, e, o) =
      Reach-OnWire (over_spi (logged d) (unlogged pause)) (λ v. v.1.written) (over_spi-once d pause)
        refl r in
    (begun, e, Reach-in_submission_order (over_spi (logged d) (unlogged pause)) r, o)
