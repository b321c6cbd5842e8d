-- ===== src/Handler/Pending.antt =====
-- What a string of bytes from the channel can change of the handler.
use clibdpa.Base.{
  ℕ, ◌≡◌, ◌⊎◌, inl, inr, refl, sym, subst, ◌∙◌, Bool, true, false, List, [], ◌++◌, ◌||◌, Option,
  none, some, ltb, ◌==◌, if◌then◌else◌, get_elem?, set, Result, ok, err,
}
use clibdpa.Message.{DpaMessage, length_u8, max_dpa_message_size}
use clibdpa.Transaction.Types.{Transaction}
use clibdpa.Transaction.Receive.{process_received_message}
use clibdpa.Handler.Types.{Handler}
use clibdpa.Handler.Registry.{Called, process_any_message, process_asynchronous_message}
use clibdpa.Handler.Dispatch.{
  Handled, handled, null_dereference, is_asynchronous, to_pending, response_message_handler,
}
use clibdpa.Handler.Routing.{received_as, response_message_handler-eq-if}

module _ {H : Type 0} where
  -- The handler is as before, or the pending transaction alone has changed, by its
  -- processReceivedMessage() of some message.
  abbrev pub OnlyPending : Handler H → Handler H → Type 0
  OnlyPending h h' =
      (h' ≡ h)
      ⊎ ((ptr : ℕ) × (t t' : Transaction) × (m : DpaMessage) × (now : ℕ) × (h.m_pending_transaction
            ≡ some ptr)
          × (get_elem? h.store ptr ≡ some t)
          × (process_received_message t m now ≡ ok t')
          × (h' ≡ record h { store = set h.store ptr t' }))

  abbrev Leaves : Handler H → Handled H → Type 0
  Leaves h (handled h' calls) = OnlyPending h h'
  Leaves h null_dereference = Unit {0}

  result-Leaves :
      (h : Handler H) (ptr : ℕ) (t : Transaction) (m : DpaMessage) (now : ℕ)
      (r : Result Transaction) (calls : List (Called H))
      → h.m_pending_transaction ≡ some ptr
      → get_elem? h.store ptr ≡ some t
      → process_received_message t m now ≡ r
      → Leaves h (elim r [
        | err e ↦ handled h calls
        | ok t' ↦ handled (record h { store = set h.store ptr t' }) calls
      ])
  result-Leaves h ptr t m now (ok t') calls e g p = inr (ptr, t, t', m, now, e, g, p, refl)
  result-Leaves h ptr t m now (err x) calls e g p = inl refl

  stored-Leaves :
      (h : Handler H) (ptr : ℕ) (o : Option Transaction) (m : DpaMessage) (now : ℕ)
      (calls : List (Called H))
      → h.m_pending_transaction ≡ some ptr
      → get_elem? h.store ptr ≡ o
      → Leaves h (elim o [
        | none ↦ null_dereference
        | some t ↦ elim (process_received_message t m now) [
          | err e ↦ handled h calls
          | ok t' ↦ handled (record h { store = set h.store ptr t' }) calls
        ]
      ])
  stored-Leaves h ptr none m now calls e g = tt
  stored-Leaves h ptr (some t) m now calls e g =
      result-Leaves h ptr t m now (process_received_message t m now) calls e g refl

  pending-Leaves :
      (h : Handler H) (p : Option ℕ) (m : DpaMessage) (now : ℕ) (calls : List (Called H))
      → h.m_pending_transaction ≡ p
      → Leaves h (elim p [
        | none ↦ null_dereference
        | some ptr ↦ elim (get_elem? h.store ptr) [
          | none ↦ null_dereference
          | some t ↦ elim (process_received_message t m now) [
            | err e ↦ handled h calls
            | ok t' ↦ handled (record h { store = set h.store ptr t' }) calls
          ]
        ]
      ])
  pending-Leaves h none m now calls e = tt
  pending-Leaves h (some ptr) m now calls e =
      stored-Leaves h ptr (get_elem? h.store ptr) m now calls e refl

  to_pending-Leaves :
      (h : Handler H) (m : DpaMessage) (now : ℕ) (calls : List (Called H))
      → Leaves h (to_pending h m now calls)
  unfolding to_pending
  to_pending-Leaves h m now calls = pending-Leaves h h.m_pending_transaction m now calls refl

  branches-Leaves :
      (h : Handler H) (dropped asynchronous : Bool) (calls : List (Called H)) (p : Handled H)
      → Leaves h p
      → Leaves h (if dropped then handled h [] else if asynchronous then handled h calls else p)
  branches-Leaves h true a calls p l = inl refl
  branches-Leaves h false true calls p l = inl refl
  branches-Leaves h false false calls p l = l

  -- For every string of bytes that the channel receives, if no null pointer is followed: nothing of the
  -- handler's state changes but, at most, the pending transaction, and that only as its
  -- processReceivedMessage() changes it for some message.
  pub response_message_handler-OnlyPending :
      (h h' : Handler H) (bytes : List ℕ) (stale now : ℕ) (calls : List (Called H))
      → response_message_handler h bytes stale now ≡ handled h' calls
      → OnlyPending h h'
  response_message_handler-OnlyPending h h' bytes stale now calls e =
      subst (Leaves h) (sym (response_message_handler-eq-if h bytes stale now) ∙ e) (
        branches-Leaves h (length_u8 bytes == 0 || ltb max_dpa_message_size (length_u8 bytes))
          (is_asynchronous (received_as bytes))
          (process_any_message h (received_as bytes)
            ++ process_asynchronous_message h (received_as bytes))
          _
          (to_pending-Leaves h (received_as bytes) now (process_any_message h (received_as bytes))))
