-- ===== src/Channel/SpiPolling.antt =====
-- What an attempt of sendTo and a poll of the driver leave, by a log of the driver.
use mathlib.Core.List.{append-nil}
use clibdpa.Base.{
  ℕ, ◌≤◌, ◌≡◌, refl, sym, ap, subst, ◌∙◌, Bool, true, List, [], ◌∷◌, ◌++◌, ◌&&◌, not, if◌then◌else◌,
  ltb, ◌==◌, length, take, overwrite, length-overwrite, take-overwrite, take-length_le, arith,
  Bool-cases, inl, inr,
}
use clibdpa.Channel.Spi.{
  SpiDriver, SpiStatus, SpiChannel, spi_rec_buffer_size, attempt, read_data, poll,
}
use clibdpa.Channel.SpiListening.{IsSized}
use clibdpa.Channel.SpiThreads.{DriverLog, read_string, watched}

-- A driver that reads as many bytes as it is asked for, if it reports success.
abbrev pub Fills : {W : Type 0} → SpiDriver W → Type 0
Fills {W} d = (n : ℕ) (w : W) → (d.spi_read n w).1 ≡ true → length (d.spi_read n w).2 ≡ n

-- The bytes that were read stand at the front of the buffer.
front :
    (n : ℕ) (bytes rx : List ℕ)
    → length bytes ≡ n
    → n ≤ length rx
    → read_string n (overwrite (take n bytes) rx) ≡ read_string n bytes
front n bytes rx l h =
    let whole = take-length_le n bytes (omega (arith, l)) in
    let e : take n (overwrite (take n bytes) rx) ≡ take n bytes =
      ap (λ k. take n (overwrite k rx)) whole
      ∙ (subst (λ k. take k (overwrite bytes rx) ≡ bytes) l
          (take-overwrite bytes rx (omega (arith, l))))
      ∙ sym whole in
    ap (λ k. if n == 0 then [] else k ∷ []) e

module _ {W : Type 0} (d : SpiDriver W) where
  pub attempt-log :
      (message : List ℕ) (v : W × DriverLog)
      → let (v', written) = attempt (watched d) (λ w. w) message v in
        (v'.1.read ≡ v.1.read)
        × (v'.1.written ≡ (if written then v.1.written ++ message ∷ [] else v.1.written))
  unfolding attempt
  attempt-log message v = ground arith

  module _ {F : Type 0} (fills : Fills d) where
    -- What polling the driver leaves, by the log.
    abbrev pub Polled : SpiChannel F → DriverLog → SpiChannel F × ℕ × (W × DriverLog) → Type 0
    Polled c log r =
        IsSized r.0
        × (r.0.m_receive_message_queue ≡ c.m_receive_message_queue)
        × (r.2.1.written ≡ log.written)
        × (r.2.1.read ≡ log.read ++ read_string r.1 r.0.m_rx)

    read_data-Polled :
        (c : SpiChannel F) (status : SpiStatus) (v : W × DriverLog)
        → IsSized c
        → status.data_ready ≤ spi_rec_buffer_size
        → Polled c v.1 (read_data (watched d) c status v)
    unfolding read_data
    read_data-Polled c status v z h = elim (Bool-cases (d.spi_read status.data_ready v.0).1) [
      | inl e ↦
          rw (e, read_data)
            (
              length-overwrite _ c.m_rx ∙ z,
              refl,
              refl,
              ap (◌++◌ v.1.read)
                  (sym (front status.data_ready _ c.m_rx (fills _ _ e) (omega (arith, z)))),
            )
      | inr e ↦
          rw (e, read_data) (length-overwrite _ c.m_rx ∙ z, refl, refl, sym (append-nil v.1.read))
    ]

    polled :
        (c : SpiChannel F) (status : SpiStatus) (v : W × DriverLog) (ok : Bool)
        → IsSized c
        → Polled c v.1 (
            if ok && status.is_data_ready && not (ltb spi_rec_buffer_size status.data_ready)
            then read_data (watched d) c status v
            else (c, 0, v))
    polled c status v ok z =
        elim (Bool-cases
          (ok && status.is_data_ready && not (ltb spi_rec_buffer_size status.data_ready))) [
            | inl e ↦ rw e (read_data-Polled c status v z (ground arith))
            | inr e ↦ rw e (z, refl, refl, sym (append-nil v.1.read))
          ]

    pub poll-Polled :
        (c : SpiChannel F) (v : W × DriverLog) → IsSized c → Polled c v.1 (poll (watched d) c v)
    unfolding poll
    poll-Polled c v z = let r = d.get_spi_status v.0 in polled c r.2 (r.0, v.1) r.1 z
