-- ===== src/Channel/SpiListening.antt =====
-- What a round of listen() hands to the queue of received messages.
use clibdpa.Base.{
  ℕ, ◌≤◌, ◌<◌, ◌≡◌, ◌⊎◌, inl, inr, refl, ap, ◌∙◌, true, false, List, [], ◌∷◌, ◌++◌, ltb, ◌==◌,
  length, take, overwrite, length-take, length-overwrite, take-overwrite, take-length_le, arith,
  Bool-cases, Bool, ◌&&◌, not, if◌then◌else◌,
}
use clibdpa.TaskQueue.{push_to_queue}
use clibdpa.Channel.Spi.{
  SpiDriver, SpiStatus, SpiChannel, spi_rec_buffer_size, read_data, poll, listen_round,
}

module _ {F : Type 0} where
  -- The receive buffer has its 1024 bytes.
  abbrev pub IsSized : SpiChannel F → Type 0
  IsSized c = length c.m_rx ≡ spi_rec_buffer_size

  abbrev pub tasks : SpiChannel F → List (List ℕ)
  tasks c = c.m_receive_message_queue.m_task_queue

  -- The queue is as it was, or one more message of 1 to 1024 bytes is at its end.
  abbrev pub AtMostOneMore : SpiChannel F → SpiChannel F → Type 0
  AtMostOneMore c c' =
      (tasks c' ≡ tasks c)
      ⊎ ((msg : List ℕ) × (tasks c' ≡ tasks c ++ msg ∷ [])
          × (0 < length msg)
          × (length msg ≤ spi_rec_buffer_size))

module _ {W F : Type 0} (driver : SpiDriver W) where
  -- What the read leaves: a buffer of the same size, the same queue, and a length within the buffer.
  abbrev Polled : SpiChannel F → SpiChannel F × ℕ × W → Type 0
  Polled c r =
      IsSized r.0
      × (r.0.m_receive_message_queue ≡ c.m_receive_message_queue)
      × (r.1 ≤ spi_rec_buffer_size)

  read_data-Polled :
      (c : SpiChannel F) (status : SpiStatus) (w : W)
      → IsSized c
      → status.data_ready ≤ spi_rec_buffer_size
      → Polled c (read_data driver c status w)
  unfolding read_data
  read_data-Polled c status w v h = (length-overwrite _ c.m_rx ∙ v, refl, ground arith)

  poll_taken :
      (c : SpiChannel F) (status : SpiStatus) (w : W) (ok : Bool)
      → IsSized c
      → Polled c (
          if ok && status.is_data_ready && not (ltb spi_rec_buffer_size status.data_ready)
          then read_data driver c status w
          else (c, 0, w))
  poll_taken c status w ok v =
      elim (Bool-cases
        (ok && status.is_data_ready && not (ltb spi_rec_buffer_size status.data_ready))) [
          | inl e ↦ rw e (read_data-Polled c status w v (ground arith))
          | inr e ↦ rw e (v, refl, omega arith)
        ]

  poll-Polled : (c : SpiChannel F) (w : W) → IsSized c → Polled c (poll driver c w)
  unfolding poll
  poll-Polled c w v = let r = driver.get_spi_status w in poll_taken c r.2 r.0 r.1 v

  -- For every driver, whatever it answers: a round of listen() keeps the size of the receive buffer and
  -- pushes at most one message, of 1 to 1024 bytes, to the end of the queue.
  listen_round-at_most_one :
      (c : SpiChannel F) (w : W)
      → IsSized c
      → IsSized (listen_round driver c w).0 × AtMostOneMore c (listen_round driver c w).0
  unfolding listen_round push_to_queue
  listen_round-at_most_one c w v =
      let (s, q, l) = poll-Polled c w v in
      let p = poll driver c w in
      elim (Bool-cases (p.1 == 0)) [
        | inl e ↦ rw (e, listen_round) (s, inl (ap (λ k. k.m_task_queue) q))
        | inr e ↦
            let some_ : 0 < p.1 = ground arith in
            rw (e, listen_round)
              (
                s,
                inr (
                  take p.1 p.0.m_rx,
                  ap (λ k. k.m_task_queue ++ take p.1 p.0.m_rx ∷ []) q,
                  omega (arith, length-take p.1 p.0.m_rx),
                  omega (arith, length-take p.1 p.0.m_rx),
                ),
              )
      ]

  -- Where the driver has data ready that fits the buffer and reads as many bytes as it announced, those
  -- bytes are what the round pushes to the end of the queue.
  listen_round-delivers :
      (c : SpiChannel F) (w w1 w2 : W) (status : SpiStatus) (bytes : List ℕ)
      → IsSized c
      → driver.get_spi_status w ≡ (w1, true, status)
      → status.is_data_ready ≡ true
      → status.data_ready ≡ length bytes
      → 0 < length bytes
      → length bytes ≤ spi_rec_buffer_size
      → driver.spi_read (length bytes) w1 ≡ (w2, true, bytes)
      → tasks (listen_round driver c w).0 ≡ tasks c ++ bytes ∷ []
  unfolding listen_round poll read_data push_to_queue
  listen_round-delivers c w w1 w2 status bytes v g i d p f r =
      let fit : ltb spi_rec_buffer_size (length bytes) ≡ false = ground arith in
      let some_ : (length bytes == 0) ≡ false = ground arith in
      let whole = take-length_le (length bytes) bytes (omega arith) in
      rw (g, listen_round)
        (rw (i, listen_round)
          (rw (d, listen_round)
            (rw fit (
              rw (r, listen_round)
                (rw some_ (
                  ap (λ k. tasks c ++ take (length bytes) (overwrite k c.m_rx) ∷ []) whole
                  ∙ ap (λ k. tasks c ++ k ∷ [])
                      (take-overwrite bytes c.m_rx (omega (arith, v, f)))))))))
