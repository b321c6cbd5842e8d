-- ===== src/Transaction/Honesty.antt =====
-- What each state of a transaction vouches for, kept by every section of its code.
use clibdpa.Base.{
  ℕ, zero, suc, ◌≤◌, ◌<◌, ◌≡◌, ◌≢◌, ◌⊎◌, inl, inr, refl, subst, ◌∙◌, Bool, true, false, arith,
  Bool-cases, else_taken, some, ok,
}
use clibdpa.Base.Int.{ℤ, pos, negsuc, eqb_ℤ→eq, leb_ℤ}
use clibdpa.Base.Bytes.{low_byte}
use clibdpa.Message.{DpaMessage, MessageType, node_address, message_direction, response, get_length}
use clibdpa.Message.Direction.{message_direction-Classified}
use clibdpa.Timing.Bounds.{estimate_timeout_bounds}
use clibdpa.Timing.{response_data_length}
use clibdpa.TransactionResult.{get_error_code, set_error_code, set_confirmation, set_response}
use clibdpa.Transaction.Types.{
  confirmation_broadcast, received_response, processed, timeout, default_error, Transaction,
  request_of,
}
use clibdpa.Transaction.Execute.{abort, start, cycle, cycles, begin}
use clibdpa.Transaction.Receive.{
  process_received_message, process_confirmation, process_response, answers, estimated_time_ms,
  to_u8, dispatch,
}
use clibdpa.Transaction.Steps.{sender}
use clibdpa.Transaction.Sections.{cycles-cases, cycles-paced, begin-cases}

-- A confirmation of a broadcast was recorded.
abbrev pub IsBroadcast : Transaction → Type 0
IsBroadcast t =
    (t.m_dpa_transaction_result.m_is_confirmed ≡ true)
    × (low_byte (node_address (request_of t)) ≡ 255)

abbrev pub IsResponded : Transaction → Type 0
IsResponded t = t.m_dpa_transaction_result.m_is_responded ≡ true

abbrev pub code_of : Transaction → ℤ
code_of t = get_error_code t.m_dpa_transaction_result

-- What each state of a transaction vouches for.
pub record Honest (t : Transaction) : Type 0 where
  pub responded : t.m_state ≡ received_response → IsResponded t
  pub done : t.m_finish ≡ false → t.m_state ≡ processed → IsResponded t
  pub broadcast : t.m_state ≡ confirmation_broadcast → IsBroadcast t
  pub refused : t.m_state ≡ default_error → t.m_default_error ≢ pos 0
  pub patient : t.m_finish ≡ false → t.m_state ≢ timeout
  pub code_sign : leb_ℤ (pos 0) t.m_dpa_transaction_result.m_response_code ≡ true
  pub success : t.m_finish ≡ true → code_of t ≡ pos 0 → IsResponded t ⊎ IsBroadcast t
  pub timed_out :
      t.m_finish ≡ true
      → code_of t ≡ negsuc 0
      → (t.m_infinit_timeout ≡ false) ⊎ (t.m_default_error ≡ negsuc 0)

pub abort-Honest : (t : Transaction) → Honest t → Honest (abort t)
unfolding abort
abort-Honest t h = ground arith

pub cycle-Honest :
    (t : Transaction) (expired : Bool) → Honest t → t.m_finish ≡ false → Honest (cycle t expired)
unfolding cycle set_error_code get_error_code
cycle-Honest t expired h f = ground (arith)

start-Honest :
    (threw : Bool) (t : Transaction) (error : ℤ)
    → Honest t
    → t.m_finish ≡ false
    → Honest (start (sender threw) t error tt).0
unfolding start
start-Honest threw t error h f = ground (arith, eqb_ℤ→eq error (pos 0))

start-finish :
    (threw : Bool) (t : Transaction) (error : ℤ)
    → (start (sender threw) t error tt).0.m_finish ≡ t.m_finish
unfolding start
start-finish threw t error = ground arith

pub cycles-Honest :
    (fuel : ℕ) (t : Transaction) (expired : Bool) {t' : Transaction}
    → Honest t
    → t.m_finish ≡ false
    → cycles fuel t expired ≡ some t'
    → Honest t'
unfolding cycles
cycles-Honest zero t expired h f e = cc
cycles-Honest (suc fuel) t expired h f e = elim (cycles-cases fuel t expired e) [
  | inl (c, _) ↦ subst Honest c (cycle-Honest t expired h f)
  | inr (f', c) ↦ cycles-Honest fuel (cycle t expired) false (cycle-Honest t expired h f) f' c
]

pub begin-Honest :
    (fuel : ℕ) (threw : Bool) (t : Transaction) (error : ℤ) {t' : Transaction}
    → Honest t
    → t.m_finish ≡ false
    → begin (sender threw) fuel t error tt ≡ some (t', tt)
    → Honest t' × ((t'.m_finish ≡ true) ⊎ (0 < t'.m_expected_duration_ms))
begin-Honest fuel threw t error h f e = elim (begin-cases fuel threw t error e) [
  | inl (c, p) ↦ (subst Honest c started, inr (subst (λ k. 0 < k.m_expected_duration_ms) c p))
  | inr c ↦ (
    cycles-Honest fuel _ false started (start-finish threw t error ∙ f) c,
    cycles-paced fuel _ false c,
  )
]
  where
    started : Honest (start (sender threw) t error tt).0
    started = start-Honest threw t error h f

confirmation-Honest :
    (t : Transaction) (received : DpaMessage) (now : ℕ)
    → Honest t
    → t.m_finish ≡ false
    → answers received (request_of t) ≡ true
    → Honest (process_confirmation t received now)
unfolding process_confirmation answers set_confirmation
confirmation-Honest t received now h f a = ground arith

response-Honest :
    (t : Transaction) (received : DpaMessage) (now : ℕ)
    → Honest t
    → t.m_finish ≡ false
    → 3 ≤ received.m_length
    → Honest (process_response t received now)
unfolding process_response set_response
response-Honest t received now h f a = ground arith

pub estimated-pos : (t : Transaction) (len : ℤ) → 0 < estimated_time_ms t len
estimated-pos t len = omega (
  arith,
  (estimate_timeout_bounds t.m_current_communication_mode t.m_current_timing_params (to_u8 t.m_hops)
      (to_u8 t.m_timeslot_length) (to_u8 t.m_hops_response) len (omega arith) (omega arith)
      (omega arith)).0,
)

confirmation-paced :
    (t : Transaction) (received : DpaMessage) (now : ℕ)
    → 0 < t.m_expected_duration_ms
    → (0 < (process_confirmation t received now).m_expected_duration_ms)
      × ((process_confirmation t received now).m_finish ≡ t.m_finish)
unfolding process_confirmation
confirmation-paced t received now h = ground arith

response-paced :
    (t : Transaction) (received : DpaMessage) (now : ℕ)
    → 0 < t.m_expected_duration_ms
    → (0 < (process_response t received now).m_expected_duration_ms)
      × ((process_response t received now).m_finish ≡ t.m_finish)
unfolding process_response
response-paced t received now h =
    ground (arith, estimated-pos t (response_data_length (get_length received)))

-- What a received message does to a transaction that is not finished.
abbrev pub Kept : Transaction → Transaction → Type 0
Kept t t' = Honest t' × ((0 < t'.m_expected_duration_ms) × (t'.m_finish ≡ t.m_finish))

dispatch-Kept :
    (d : MessageType) (t : Transaction) (received : DpaMessage) (now : ℕ) {t' : Transaction}
    → message_direction received ≡ d
    → Honest t
    → t.m_finish ≡ false
    → 0 < t.m_expected_duration_ms
    → dispatch d t received now ≡ ok t'
    → Kept t t'
dispatch-Kept MessageType.request t received now m h f p e = cc
dispatch-Kept MessageType.notification t received now m h f p e = cc
dispatch-Kept MessageType.confirmation t received now m h f p e =
    elim (Bool-cases (answers received (request_of t))) [
      | inl a ↦
          subst (Kept t) (ground arith)
            (confirmation-Honest t received now h f a, confirmation-paced t received now p)
      | inr a ↦ absurd (ground arith)
    ]
dispatch-Kept response t received now m h f p e =
    elim (Bool-cases (answers received (request_of t))) [
      | inl a ↦ subst (Kept t) (ground arith) (
        response-Honest t received now h f
            ((message_direction-Classified received).responses.0 m).0,
        response-paced t received now p,
      )
      | inr a ↦ absurd (ground arith)
    ]

pub receive-Kept :
    (t : Transaction) (received : DpaMessage) (now : ℕ) {t' : Transaction}
    → Honest t
    → t.m_finish ≡ false
    → 0 < t.m_expected_duration_ms
    → process_received_message t received now ≡ ok t'
    → Kept t t'
unfolding process_received_message
receive-Kept t received now h f p e =
    dispatch-Kept (message_direction received) t received now refl h f p
      (else_taken t.m_finish _ _ f e)
