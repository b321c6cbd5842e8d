-- ===== src/Channel/Spi.antt =====
-- IqrfSpiChannel::Imp (IqrfSpiChannel/IqrfSpiChannel.cpp).
use clibdpa.Base.{
  ℕ, zero, suc, Bool, true, false, ◌&&◌, not, List, Option, none, some, ltb, ◌==◌, if◌then◌else◌,
  take, replicate, overwrite, Result, ok, err, spi_channel_exception,
}
use clibdpa.TaskQueue.{TaskQueue, push_to_queue}
use clibdpa.TaskQueue

-- What the channel reads of spi_iqrf_SPIStatus. `ready_comm` is
-- `dataNotReadyStatus == SPI_IQRF_SPI_READY_COMM`.
pub record SpiStatus : Type 0 where
  pub is_data_ready : Bool
  pub ready_comm : Bool
  pub data_ready : ℕ

-- The functions of the driver spi_iqrf. The Bool is `BASE_TYPES_OPER_OK == retval`. Where
-- spi_iqrf_getSPIStatus fails, the status is what the caller's variable holds then.
pub record SpiDriver (W : Type 0) : Type 0 where
  pub get_spi_status : W → W × Bool × SpiStatus
  pub spi_write : List ℕ → W → W × Bool
  pub spi_read : ℕ → W → W × Bool × List ℕ

abbrev pub spi_rec_buffer_size : ℕ
spi_rec_buffer_size = 1024

abbrev pub attempts : ℕ
attempts = 8

-- enum class IChannel::State.
pub data State : Type 0 where
  ready not_ready : State

-- The members that its threads share. `F` stands for the user's functions.
pub record SpiChannel (F : Type 0) : Type 0 where
  pub m_receive_from_func : Option F
  pub m_run_listen_thread : Bool
  pub m_rx : List ℕ
  pub m_receive_message_queue : TaskQueue (List ℕ)

module _ {F : Type 0} where
  -- Imp(cfg), for a driver that has been initialised.
  unfoldable pub open_channel : SpiChannel F
  open_channel = record {
    m_receive_from_func = none;
    m_run_listen_thread = true;
    m_rx = replicate spi_rec_buffer_size 0;
    m_receive_message_queue = TaskQueue.new;
  }

  -- Imp(cfg). The argument is `BASE_TYPES_OPER_OK == retval` of the driver's initialisation.
  unfoldable pub construct : Bool → Result (SpiChannel F)
  unfolding open_channel
  construct opened = if opened then ok open_channel else err spi_channel_exception

  -- registerReceiveFromHandler(receiveFromFunc) and unregisterReceiveFromHandler()
  unfoldable pub register_receive_from_handler : SpiChannel F → F → SpiChannel F
  register_receive_from_handler c f = record c { m_receive_from_func = some f }

  unfoldable pub unregister_receive_from_handler : SpiChannel F → SpiChannel F
  unregister_receive_from_handler c = record c { m_receive_from_func = none }

  -- The processing function of the queue: the call of the user's function, if there is one.
  unfoldable pub receive : SpiChannel F → List ℕ → Option (F × List ℕ)
  receive c msg = elim c.m_receive_from_func [ none ↦ none | some f ↦ some (f, msg) ]

  -- The push in listen(), behind its locked part, if something was read.
  unfoldable pub push_data : SpiChannel F → ℕ → SpiChannel F
  unfolding push_to_queue
  push_data c rec_data = if rec_data == 0 then c else record c {
    m_receive_message_queue = (push_to_queue c.m_receive_message_queue (take rec_data c.m_rx)).0;
  }

  -- The destructor, up to the end of the listening thread. The queue of received messages is neither
  -- stopped nor deleted.
  unfoldable pub close_channel : SpiChannel F → SpiChannel F
  close_channel c = record c { m_run_listen_thread = false }

-- setCommunicationMode(mode) and getCommunicationMode(), over the driver's two functions on a type `M` of
-- modes; `same` is their equality.
module _ {W M : Type 0} (set_mode : M → W → W) (get_mode : W → W × M) (same : M → M → Bool) where
  unfoldable pub get_communication_mode : W → W × M
  get_communication_mode w = get_mode w

  unfoldable pub set_communication_mode : M → W → W × Result (Unit {0})
  set_communication_mode mode w =
      let (w', now) = get_mode (set_mode mode w) in
      (w', if same mode now then ok tt else err spi_channel_exception)

-- `pause` is what other threads do while sendTo or getState gives up the lock or sleeps.
module _ {W : Type 0} (driver : SpiDriver W) (pause : W → W) where
  -- getState()
  unfoldable pub get_state : W → W × State
  get_state w =
      let (w1, ok1, status1) = driver.get_spi_status w in
      let (w2, ok2, status2) = driver.get_spi_status (pause w1) in
      (
        w2,
        if ok2
            then (if status1.ready_comm && status2.ready_comm then ready else not_ready)
            else not_ready,
      )

  -- One attempt of sendTo(message): whether the message is written.
  unfoldable pub attempt : List ℕ → W → W × Bool
  attempt message w =
      let (w', oper_ok, status) = driver.get_spi_status w in
      let (w'', written) =
        if oper_ok && status.ready_comm then driver.spi_write message w' else (w', false) in
      if written
      then (w'', true)
      else (if status.is_data_ready then (pause w'', false) else (w'', false))

  -- The loop of sendTo(message), with the attempts that are left. A message that is not written is
  -- dropped, which is only traced.
  unfoldable pub try_to_send : ℕ → List ℕ → W → W × Bool
  unfolding attempt
  try_to_send zero message w = (w, false)
  try_to_send (suc left) message w =
      let (w', written) = attempt message w in
      let rest = try_to_send left message w' in if written then (w', true) else rest

  -- sendTo(message)
  unfoldable pub send_to : List ℕ → W → W × Bool
  unfolding try_to_send
  send_to message w = try_to_send attempts message w

-- One round of listen(), behind its wait: what is read, and the message that is pushed.
module _ {W F : Type 0} (driver : SpiDriver W) where
  unfoldable pub read_data : SpiChannel F → SpiStatus → W → SpiChannel F × ℕ × W
  read_data c status w =
      let (w', oper_ok, bytes) = driver.spi_read status.data_ready w in
      (
        record c { m_rx = overwrite (take status.data_ready bytes) c.m_rx },
        if oper_ok then status.data_ready else 0,
        w',
      )

  unfoldable pub poll : SpiChannel F → W → SpiChannel F × ℕ × W
  unfolding read_data
  poll c w =
      let (w', oper_ok, status) = driver.get_spi_status w in
      if oper_ok && status.is_data_ready && not (ltb spi_rec_buffer_size status.data_ready)
      then read_data c status w'
      else (c, 0, w')

  unfoldable pub listen_round : SpiChannel F → W → SpiChannel F × W
  unfolding poll push_data
  listen_round c w = let (c', rec_data, w') = poll c w in (push_data c' rec_data, w')
