-- ===== src/Handler/Registry.antt =====
-- The user's message handlers: one for asynchronous messages, and a std::map of handlers for any
-- message, by service.
use Prim.Native.String.{String, compare}
use text.Mathlib.Text.{◌==◌ as str_eq, is_lt}
use clibdpa.Base.{
  List, [], ◌∷◌, Option, none, some, if◌then◌else◌, Result, ok, err, logic_error, map,
}
use clibdpa.Message.{DpaMessage}
use clibdpa.Handler.Types.{Handler}

-- A call of one of the user's functions.
pub record Called (H : Type 0) : Type 0 where
  pub fun : H
  pub message : DpaMessage

module _ {H : Type 0} where
  -- `map.find(key)`
  unfoldable pub find : String → List (String × H) → Option H
  find k [] = none
  find k ((j, f) ∷ m) = if str_eq j k then some f else find k m

  -- `map.insert` of a key that is not there: the map is kept in the order of the keys.
  unfoldable pub insert : String → H → List (String × H) → List (String × H)
  insert k f [] = (k, f) ∷ []
  insert k f ((j, g) ∷ m) =
      if is_lt (compare k j) then (k, f) ∷ (j, g) ∷ m else (j, g) ∷ insert k f m

  -- `map.erase(found)`
  unfoldable pub erase : String → List (String × H) → List (String × H)
  erase k [] = []
  erase k ((j, f) ∷ m) = if str_eq j k then m else (j, f) ∷ erase k m

  -- registerAnyMessageHandler(serviceId, fun)
  unfoldable pub register_any_message_handler : Handler H → String → H → Result (Handler H)
  register_any_message_handler h service f = elim (find service h.m_any_message_handler_map) [
    | some g ↦ err logic_error
    | none ↦
        ok (record h { m_any_message_handler_map = insert service f h.m_any_message_handler_map })
  ]

  -- unregisterAnyMessageHandler(serviceId)
  unfoldable pub unregister_any_message_handler : Handler H → String → Handler H
  unregister_any_message_handler h service = elim (find service h.m_any_message_handler_map) [
    | some g ↦ record h { m_any_message_handler_map = erase service h.m_any_message_handler_map }
    | none ↦ h
  ]

  -- processAnyMessage(message): the calls, in the order of the map.
  unfoldable pub process_any_message : Handler H → DpaMessage → List (Called H)
  process_any_message h m = map (λ e. record { fun = e.1; message = m }) h.m_any_message_handler_map

  -- registerAsyncMessageHandler(serviceId, fun) and unregisterAsyncMessageHandler(serviceId): the
  -- service is ignored.
  unfoldable pub register_async_message_handler : Handler H → String → H → Handler H
  register_async_message_handler h service f = record h { m_async_message_handler = some f }

  unfoldable pub unregister_async_message_handler : Handler H → String → Handler H
  unregister_async_message_handler h service = record h { m_async_message_handler = none }

  -- processAsynchronousMessage(message)
  unfoldable pub process_asynchronous_message : Handler H → DpaMessage → List (Called H)
  process_asynchronous_message h m = elim h.m_async_message_handler [
    | none ↦ []
    | some f ↦ record { fun = f; message = m } ∷ []
  ]
