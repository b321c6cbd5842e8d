-- ===== src/Handler/Handlers.antt =====
-- The map of handlers for any message, as a dictionary by service.
use Prim.Native.String.{String}
use text.Mathlib.Text.{◌==◌ as str_eq}
use text.Mathlib.TextEquality.{eq_iff}
use text.Mathlib.TextPositions.{eq_refl}
use clibdpa.Base.{
  ◌≡◌, sym, ◌∙◌, Bool, true, false, Option, refl, List, [], ◌∷◌, none, some, if◌then◌else◌, ok, err,
  logic_error, arith, Option-cases, inl, inr,
}
use clibdpa.Handler.Types.{Handler}
use clibdpa.Handler.Registry.{
  find, insert, erase, register_any_message_handler, unregister_any_message_handler,
}

module _ {H : Type 0} where
  -- No service has two handlers.
  abbrev pub Unique : List (String × H) → Type 0
  Unique [] = Unit
  Unique ((j, f) ∷ m) = (find j m ≡ none) × Unique m

  find-insert :
      (k j : String) (f : H) (m : List (String × H))
      → find k m ≡ none
      → find j (insert k f m) ≡ (if str_eq k j then some f else find j m)
  unfolding find insert
  find-insert k j f [] h = refl
  find-insert k j f ((i, g) ∷ m) h =
      ground (arith, eq_iff k j, eq_iff i k, eq_iff i j, find-insert k j f m)

  insert-Unique :
      (k : String) (f : H) (m : List (String × H))
      → find k m ≡ none
      → Unique m
      → Unique (insert k f m)
  unfolding insert find
  insert-Unique k f [] h u = (refl, tt)
  insert-Unique k f ((i, g) ∷ m) h u =
      ground (arith, eq_iff i k, eq_iff k i, insert-Unique k f m, find-insert k i f m)

  find-erase :
      (k j : String) (m : List (String × H))
      → Unique m
      → find j (erase k m) ≡ (if str_eq k j then none else find j m)
  unfolding find erase
  find-erase k j [] u = ground arith
  find-erase k j ((i, g) ∷ m) u =
      ground (arith, eq_iff k j, eq_iff i k, eq_iff i j, find-erase k j m)

  erase-Unique : (k : String) (m : List (String × H)) → Unique m → Unique (erase k m)
  unfolding erase
  erase-Unique k [] u = tt
  erase-Unique k ((i, g) ∷ m) u = ground (arith, eq_iff k i, find-erase k i m, erase-Unique k m)

  -- A service that has a handler already is refused.
  pub register_any-refused :
      (h : Handler H) (service : String) (f g : H)
      → find service h.m_any_message_handler_map ≡ some g
      → register_any_message_handler h service f ≡ err logic_error
  unfolding register_any_message_handler
  register_any-refused h service f g e = rw (e, register_any_message_handler)

  -- Registering a service that has no handler, in a map in which no service has two: exactly that
  -- service gets the function, every other keeps its own, no service has two, and registering the
  -- service once more, with any function, is refused.
  register_any-find :
      (h : Handler H) (service : String) (f : H)
      → Unique h.m_any_message_handler_map
      → find service h.m_any_message_handler_map ≡ none
      → (h' : Handler H) × (register_any_message_handler h service f ≡ ok h')
        × ((j : String)
            → find j h'.m_any_message_handler_map
              ≡ (if str_eq service j then some f else find j h.m_any_message_handler_map))
        × Unique h'.m_any_message_handler_map
        × ((g : H) → register_any_message_handler h' service g ≡ err logic_error)
  unfolding register_any_message_handler
  register_any-find h service f u e =
      let m = insert service f h.m_any_message_handler_map in
      let h' = record h { m_any_message_handler_map = m } in
      let there : find service m ≡ some f =
        find-insert service service f h.m_any_message_handler_map e ∙ rw (eq_refl service) refl in
      (
        h',
        rw (e, register_any_message_handler),
        λ j. find-insert service j f h.m_any_message_handler_map e,
        insert-Unique service f h.m_any_message_handler_map e u,
        λ g. register_any-refused h' service g f there,
      )

  absent :
      (k j : String) (m : List (String × H))
      → find k m ≡ none
      → find j m ≡ (if str_eq k j then none else find j m)
  absent k j m e = ground (arith, eq_iff k j)

  -- Unregistering, for a map in which no service has two handlers: the service has none afterwards,
  -- every other keeps its own, and no service has two.
  unregister_any-find :
      (h : Handler H) (service : String)
      → Unique h.m_any_message_handler_map
      → let h' = unregister_any_message_handler h service in
        ((j : String)
          → find j h'.m_any_message_handler_map
            ≡ (if str_eq service j then none else find j h.m_any_message_handler_map))
        × Unique h'.m_any_message_handler_map
  unfolding unregister_any_message_handler
  unregister_any-find h service u = elim (Option-cases (find service h.m_any_message_handler_map)) [
    | inl e ↦
        rw (e, unregister_any_message_handler)
          (λ j. absent service j h.m_any_message_handler_map e, u)
    | inr (g, e) ↦
        rw (e, unregister_any_message_handler)
          (
            λ j. find-erase service j h.m_any_message_handler_map u,
            erase-Unique service h.m_any_message_handler_map u,
          )
  ]

  -- For a map in which no service has two handlers, registering a service that has none: exactly that
  -- service gets the function and every other keeps its own, registering it once more, with any function,
  -- is refused, and unregistering it then leaves every service with what it had before.
  pub register-unregister :
      (h : Handler H) (service : String) (f : H)
      → Unique h.m_any_message_handler_map
      → find service h.m_any_message_handler_map ≡ none
      → (h' : Handler H) × (register_any_message_handler h service f ≡ ok h')
        × ((j : String)
            → find j h'.m_any_message_handler_map
              ≡ (if str_eq service j then some f else find j h.m_any_message_handler_map))
        × ((g : H) → register_any_message_handler h' service g ≡ err logic_error)
        × ((j : String)
            → find j (unregister_any_message_handler h' service).m_any_message_handler_map
              ≡ find j h.m_any_message_handler_map)
  register-unregister h service f u e =
      let (h', r, found, once, refused) = register_any-find h service f u e in
      (
        h',
        r,
        found,
        refused,
        λ j.
            (unregister_any-find h' service once).0 j
            ∙ without (str_eq service j) (found j) (absent service j h.m_any_message_handler_map e),
      )
    where
      without :
          (b : Bool) {x y : Option H}
          → x ≡ (if b then some f else y)
          → y ≡ (if b then none else y)
          → (if b then none else x) ≡ y
      without true p q = sym q
      without false p q = p
