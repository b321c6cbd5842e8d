-- ===== src/Handler/Silence.antt =====
-- A request that nobody answers, on its way through the handler, over any channel and over SPI.
use clibdpa.Base.{
  ℕ, ◌+◌, ◌<◌, ◌≡◌, ◌⊎◌, inl, ap, refl, ◌∙◌, Bool, true, false, List, [], ◌∷◌, ◌++◌, some,
  if◌then◌else◌, get_elem?, get_elem?-set_self, get_elem?-lt, arith,
}
use clibdpa.Base.Int.{pos, negsuc}
use clibdpa.Message.Contents.{contents}
use clibdpa.TaskQueue.{size}
use clibdpa.TransactionResult.{DpaTransactionResult, get_error_code, set_error_code}
use clibdpa.Transaction.Types.{Transaction, request_of}
use clibdpa.Transaction.Execute.{cycle, get}
use clibdpa.Transaction.Honesty.{code_of}
use clibdpa.Transaction.Progress.{cycle_expired, cycles_once, get_cases}
use clibdpa.Channel.Spi.{SpiDriver, send_to}
use clibdpa.Channel.SpiSending.{SpiLog, logged, unlogged, send_to-once}
use clibdpa.Handler.Types.{Handler}
use clibdpa.Handler.Submit.{queue_max_len, process_transaction, resume_transaction}
use clibdpa.Handler.Overload.{on_way, taken_up, process-on_way}
use clibdpa.Handler.EndToEnd.{resume-some}

-- The result reports a timeout to the user, and its messages are those that it had.
pub record TimesOut (t t' : Transaction) : Type 0 where
  pub finished : t'.m_finish ≡ true
  pub code : code_of t' ≡ negsuc 0
  pub result :
      t'.m_dpa_transaction_result ≡ record (t.m_dpa_transaction_result) { m_error_code = negsuc 0 }
  pub handed : (started : Bool) → get t' started ≡ some t'.m_dpa_transaction_result

on_way-expired :
    (t : Transaction)
    → t.m_infinit_timeout ≡ false
    → (cycle (on_way t) true).m_dpa_transaction_result
      ≡ record (t.m_dpa_transaction_result) { m_error_code = negsuc 0 }
unfolding cycle set_error_code
on_way-expired t i = ground arith

timeout-code :
    (r : DpaTransactionResult) → get_error_code (record r { m_error_code = negsuc 0 }) ≡ negsuc 0
unfolding get_error_code
timeout-code r = refl

on_way-TimesOut :
    (t : Transaction) → t.m_infinit_timeout ≡ false → TimesOut t (cycle (on_way t) true)
on_way-TimesOut t i =
    let f = cycle_expired (on_way t) i in
    let r = on_way-expired t i in
    record {
      finished = f;
      code = ap get_error_code r ∙ timeout-code t.m_dpa_transaction_result;
      result = r;
      handed = λ started. get_cases (cycle (on_way t) true) started ∙ rw f refl;
    }

module _ {H W : Type 0} (send_to : List ℕ → W → W × Bool) where
  -- A request with a finite timeout, whose transaction was given no default error and has a positive
  -- expected duration, that the worker takes up with fewer than 16 others in the queue, and that nothing
  -- answers: the channel is given its bytes, and whatever the channel does with them,
  -- throwing included, the end of the wait finishes the transaction with the code for a timeout, and
  -- get() hands the result out, which has the messages that it had.
  pub unanswered-TimesOut :
      (h : Handler H) (ptr : ℕ) (t : Transaction) (w : W)
      → get_elem? h.store ptr ≡ some t
      → size h.m_dpa_transaction_queue < queue_max_len
      → t.m_default_error ≡ pos 0
      → t.m_infinit_timeout ≡ false
      → 0 < t.m_expected_duration_ms
      → (h1 h2 : Handler H) × (t' : Transaction) × (process_transaction send_to 1 h ptr w
          ≡ some (h1, (send_to (contents (request_of t)) w).0))
        × (resume_transaction 1 h1 ptr true ≡ some h2)
        × (get_elem? h2.store ptr ≡ some t')
        × TimesOut t t'
  unanswered-TimesOut h ptr t w g room no_error i p =
      let t' = cycle (on_way t) true in
      let h1 = taken_up h ptr (on_way t) in
      let there = get_elem?-set_self h.store ptr (on_way t) (get_elem?-lt h.store ptr g) in
      let f = cycle_expired (on_way t) i in
      (
        h1,
        taken_up h1 ptr t',
        t',
        process-on_way send_to h ptr t w g room no_error p,
        resume-some h1 ptr (on_way t) t' true there (cycles_once (on_way t) true (inl f)),
        get_elem?-set_self h1.store ptr t' (get_elem?-lt h1.store ptr there),
        on_way-TimesOut t i,
      )

-- sendTo of the SPI channel as the handler uses it: it never throws, and does not tell whether it dropped
-- the message.
abbrev pub over_spi : {W : Type 0} → SpiDriver W → (W → W) → List ℕ → W → W × Bool
over_spi driver pause message w = ((send_to driver pause message w).0, false)

-- The handler over the SPI channel, for every driver, whatever it answers, and for a request with a finite
-- timeout, whose transaction was given no default error and has a positive expected duration, that the
-- worker takes up with fewer than 16 others in the queue: the driver writes the bytes of the request once, or not at all, after 8 calls for its status, when sendTo
-- drops them; and if nothing answers, the user reads the code for a timeout in both cases.
pub spi_request-TimesOut :
    {H W : Type 0} (d : SpiDriver W) (pause : W → W) (h : Handler H) (ptr : ℕ) (t : Transaction)
    (w : W) (log : SpiLog)
    → get_elem? h.store ptr ≡ some t
    → size h.m_dpa_transaction_queue < queue_max_len
    → t.m_default_error ≡ pos 0
    → t.m_infinit_timeout ≡ false
    → 0 < t.m_expected_duration_ms
    → (h1 h2 : Handler H) × (t' : Transaction) × (v : W × SpiLog) × (written : Bool)
      × (process_transaction (over_spi (logged d) (unlogged pause)) 1 h ptr (w, log) ≡ some (h1, v))
      × (v.1.written ≡ log.written ++ (if written then contents (request_of t) ∷ [] else []))
      × ((v.1.calls ≡ log.calls + 8) ⊎ (written ≡ true))
      × (resume_transaction 1 h1 ptr true ≡ some h2)
      × (get_elem? h2.store ptr ≡ some t')
      × TimesOut t t'
spi_request-TimesOut d pause h ptr t w log g room no_error i p =
    let (h1, h2, t', a, b, c, e) =
      unanswered-TimesOut (over_spi (logged d) (unlogged pause)) h ptr t (w, log) g room no_error i
        p in
    let (one, few, all) = send_to-once d pause (contents (request_of t)) w log in
    let r = send_to (logged d) (unlogged pause) (contents (request_of t)) (w, log) in
    (h1, h2, t', r.0, r.1, a, one, all, b, c, e)
