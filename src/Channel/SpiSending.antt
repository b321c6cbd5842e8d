-- ===== src/Channel/SpiSending.antt =====
-- How often sendTo of the SPI channel writes a message, and how often it asks for the status: the
-- driver is watched by a log of its calls.
use mathlib.Core.List.{append-nil}
use clibdpa.Base.{
  ℕ, zero, suc, ◌+◌, ◌≤◌, ◌≡◌, ◌⊎◌, inl, sym, ap, ◌∙◌, Bool, true, false, List, [], ◌∷◌, ◌++◌,
  if◌then◌else◌, arith,
}
use clibdpa.Channel.Spi.{SpiDriver, attempt, try_to_send, send_to, attempts}

-- The number of status calls, and the messages that were written, in order.
pub record SpiLog : Type 0 where
  pub calls : ℕ
  pub written : List (List ℕ)

-- The messages that are written by a call with this outcome.
abbrev pub sent : Bool → List ℕ → List (List ℕ)
sent written message = if written then message ∷ [] else []

module _ {W : Type 0} where
  -- The driver with the log.
  abbrev pub logged : SpiDriver W → SpiDriver (W × SpiLog)
  logged d = record {
    get_spi_status = λ v.
        let r = d.get_spi_status v.0 in ((r.0, record (v.1) { calls = suc v.1.calls }), r.1, r.2);
    spi_write = λ m v.
        let r = d.spi_write m v.0 in
        ((r.0, if r.1 then record (v.1) { written = v.1.written ++ m ∷ [] } else v.1), r.1);
    spi_read = λ n v. let r = d.spi_read n v.0 in ((r.0, v.1), r.1, r.2);
  }

  -- What other threads do meanwhile is not logged.
  abbrev pub unlogged : (W → W) → W × SpiLog → W × SpiLog
  unlogged pause v = (pause v.0, v.1)

  module _ (d : SpiDriver W) (pause : W → W) (message : List ℕ) where
    attempt-log :
        (v : W × SpiLog)
        → let (v', written) = attempt (logged d) (unlogged pause) message v in
          (v'.1.calls ≡ suc v.1.calls) × (v'.1.written ≡ v.1.written ++ sent written message)
    unfolding attempt
    attempt-log v = ground (arith, append-nil v.1.written)

    -- The calls of a loop that has so many attempts left.
    abbrev Counted : ℕ → W × SpiLog → (W × SpiLog) × Bool → Type 0
    Counted left v r =
        (r.0.1.written ≡ v.1.written ++ sent r.1 message)
        × (r.0.1.calls ≤ v.1.calls + left)
        × ((r.0.1.calls ≡ v.1.calls + left) ⊎ (r.1 ≡ true))

    first_written :
        (left : ℕ) (v u : W × SpiLog) (rest : (W × SpiLog) × Bool) (written : Bool)
        → (u.1.calls ≡ suc v.1.calls) × (u.1.written ≡ v.1.written ++ sent written message)
        → Counted left u rest
        → Counted (suc left) v (if written then (u, true) else rest)
    first_written left v u rest true h k = ground arith
    first_written left v u rest false h k =
        let e = h.1 ∙ append-nil v.1.written in
        (
          k.0 ∙ ap (λ x. x ++ sent rest.1 message) e,
          omega (arith, h.0, k.1),
          ground (arith, h.0, k.2),
        )

    try_to_send-log :
        (left : ℕ) (v : W × SpiLog)
        → Counted left v (try_to_send (logged d) (unlogged pause) left message v)
    unfolding try_to_send
    try_to_send-log zero v = (sym (append-nil v.1.written), omega arith, inl (omega arith))
    try_to_send-log (suc left) v =
        let r = attempt (logged d) (unlogged pause) message v in
        first_written left v r.0 _ r.1 (attempt-log v) (try_to_send-log left r.0)

    -- For every driver, whatever it answers and whatever happens in between: sendTo writes the message
    -- once if it reports it as written, and not at all if it drops it; it asks for the status at most 8
    -- times, and it drops the message only after 8 times.
    pub send_to-once :
        (w : W) (log : SpiLog)
        → let (v, written) = send_to (logged d) (unlogged pause) message (w, log) in
          (v.1.written ≡ log.written ++ (if written then message ∷ [] else []))
          × (v.1.calls ≤ log.calls + 8)
          × ((v.1.calls ≡ log.calls + 8) ⊎ (written ≡ true))
    unfolding send_to
    send_to-once w log = try_to_send-log attempts (w, log)
