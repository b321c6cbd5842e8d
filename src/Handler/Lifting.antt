-- ===== src/Handler/Lifting.antt =====
-- The histories of all transactions of a handler, and what the parts of its steps make of them.
use clibdpa.Base.{
  ℕ, ◌<◌, ◌≡◌, ◌≢◌, ◌⊎◌, inl, inr, refl, sym, ap, subst, ◌∙◌, List, [], ◌∷◌, ◌++◌, some, All, ◌==◌,
  length, length-set, length-append, get_elem?, set, get_elem?-set_self, get_elem?-set_ne,
  get_elem?-append_last, get_elem?-append_left, get_elem?-lt, arith, Bool-cases,
}
use clibdpa.TaskQueue.{TaskQueue, Worker}
use clibdpa.TaskQueue.Steps.{taken_up}
use clibdpa.Transaction.Types.{Transaction}
use clibdpa.Transaction.Execute.{abort}
use clibdpa.Transaction.Invariant.{IsNew}
use clibdpa.Transaction.Steps as OfOne
use clibdpa.Handler.Types.{Handler}
use clibdpa.Handler.Defaults.{HasTimeout}
use clibdpa.Handler.Pending.{OnlyPending}
use clibdpa.Handler.Histories.{History, beside, at_move, at_pause, at_first}
use clibdpa.Handler.Configured.{HasTimeout-same}
use clibdpa.Handler.Steps.{System, Phase, in_queue, executing, about_to}

-- Each transaction of a store has its history.
abbrev pub Histories : Phase → List ℕ → List Transaction → Type 0
Histories p taken store =
    (i : ℕ) (t : Transaction) → get_elem? store i ≡ some t → History p taken i t

-- One transaction has changed, and maybe the phase.
pub replaced :
    (p p' : Phase) (taken : List ℕ) (store : List Transaction) (ptr : ℕ) (t t' : Transaction)
    → get_elem? store ptr ≡ some t
    → (History p taken ptr t → History p' taken ptr t')
    → ((i : ℕ) (k : Transaction) → ptr ≢ i → History p taken i k → History p' taken i k)
    → Histories p taken store
    → Histories p' taken (set store ptr t')
replaced p p' taken store ptr t t' g one others hs i k e = elim (Bool-cases (ptr == i)) [
  | inl q ↦
      let same : ptr ≡ i = ground arith in
      let found : get_elem? (set store ptr t') i ≡ some t' =
        subst (λ j. get_elem? (set store ptr t') j ≡ some t') same
          (get_elem?-set_self store ptr t' (get_elem?-lt store ptr g)) in
      let at_i : t' ≡ k = cc (found, e) in
      subst (λ j. History p' taken j k) same (subst (History p' taken ptr) at_i (one (hs ptr t g)))
  | inr q ↦
      let apart : ptr ≢ i = λ n. ground arith in
      others i k apart (hs i k (sym (get_elem?-set_ne store ptr i t' apart) ∙ e))
]

-- A transaction has been added, which is not the one in execution.
added :
    (p : Phase) (taken : List ℕ) (store : List Transaction) (t : Transaction)
    → IsNew t
    → p ≢ executing (length store)
    → Histories p taken store
    → Histories p taken (store ++ t ∷ [])
added p taken store t n d hs i k e = elim (Bool-cases (length store == i)) [
  | inl q ↦
      let same : length store ≡ i = ground arith in
      let at_i : t ≡ k = cc (
        subst (λ j. get_elem? (store ++ t ∷ []) j ≡ some t) same (get_elem?-append_last store t),
        e,
      ) in
      subst (History p taken i) at_i (at_first n (subst (λ j. p ≢ executing j) same d))
  | inr q ↦
      let room : i < length store =
        ground (arith, get_elem?-lt (store ++ t ∷ []) i e, length-append store (t ∷ [])) in
      hs i k (sym (get_elem?-append_left store (t ∷ []) i room) ∙ e)
]

module _ {H W : Type 0} where
  pub record Lifted (s : System H W) : Type 0 where
    pub timed : HasTimeout s.handler
    pub executes : (i : ℕ) → s.phase ≡ executing i → i < length s.handler.store
    pub histories : Histories s.phase s.taken s.handler.store

  -- A transaction was changed beside the worker, in a handler whose other members may have changed too.
  pub besides :
      (s : System H W) (h : Handler H) (ptr : ℕ) (t t' : Transaction)
      → h.store ≡ set s.handler.store ptr t'
      → h.m_default_timeout ≡ s.handler.m_default_timeout
      → get_elem? s.handler.store ptr ≡ some t
      → ((w : OfOne.Worker)
          → OfOne.Step
              (record { transaction = t; worker = w })
              (record { transaction = t'; worker = w }))
      → Lifted s
      → Lifted (record s { handler = h })
  besides s h ptr t t' e d g st k = record {
    timed = HasTimeout-same s.handler h d k.timed;
    executes = λ i p.
        subst (λ l. i < length l) (sym e)
          (omega (arith, k.executes i p, length-set s.handler.store ptr t'));
    histories = subst (Histories s.phase s.taken) (sym e) (
        replaced s.phase s.phase s.taken s.handler.store ptr t t' g (beside t' st) (λ i j n h. h)
          k.histories);
  }

  -- The worker went on in the queue.
  pub moved_on :
      (s u : System H W) (w : Worker ℕ)
      → u.handler.store ≡ s.handler.store
      → u.handler.m_default_timeout ≡ s.handler.m_default_timeout
      → u.phase ≡ in_queue w
      → u.taken ≡ s.taken ++ taken_up w
      → ((ptr : ℕ) → taken_up w ≡ ptr ∷ [] → All (λ j. j ≢ ptr) s.taken)
      → Lifted s
      → Lifted u
  moved_on s u w e d p q first k = record {
    timed = HasTimeout-same s.handler u.handler d k.timed;
    executes = λ i x. cc (p, x);
    histories = λ i t g.
        subst (λ f. History f u.taken i t) (sym p)
          (subst (λ l. History (in_queue w) l i t) (sym q)
            (at_move w (first i) (k.histories i t (subst (λ l. get_elem? l i ≡ some t) e g))));
  }

  pub made :
      (s : System H W) (h : Handler H) (t : Transaction) (references : List ℕ)
      → h.store ≡ s.handler.store ++ t ∷ []
      → h.m_default_timeout ≡ s.handler.m_default_timeout
      → IsNew t
      → Lifted s
      → Lifted (record s { handler = h; held = references })
  made s h t references e d n k = record {
    timed = HasTimeout-same s.handler h d k.timed;
    executes = λ i p.
        subst (λ l. i < length l) (sym e)
          (omega (arith, k.executes i p, length-append s.handler.store (t ∷ [])));
    histories = subst (Histories s.phase s.taken) (sym e) (
        added s.phase s.taken s.handler.store t n
          (λ p. absurd (omega (arith, k.executes (length s.handler.store) p))) k.histories);
  }

  -- The worker went on in the processing function.
  pub paused :
      (s : System H W) (h : Handler H) (p : Phase)
      → h.store ≡ s.handler.store
      → h.m_default_timeout ≡ s.handler.m_default_timeout
      → about_to p ≡ about_to s.phase
      → ((i : ℕ) → p ≢ executing i)
      → Lifted s
      → Lifted (record s { handler = h; phase = p })
  paused s h p e d a n k = record {
    timed = HasTimeout-same s.handler h d k.timed;
    executes = λ i x. absurd (n i x);
    histories = subst (Histories p s.taken) (sym e) (λ i t g. at_pause a (n i) (k.histories i t g));
  }

  pub received :
      (s : System H W) (h : Handler H)
      → OnlyPending s.handler h
      → Lifted s
      → Lifted (record s { handler = h })
  received s h (inl e) k = subst (λ j. Lifted (record s { handler = j })) (sym e) k
  received s h (inr (ptr, t, t', m, now, _, g, r, e)) k =
      besides s h ptr t t' (ap (λ j. j.store) e) (ap (λ j. j.m_default_timeout) e) g
        (λ w. OfOne.receives m now t' r refl) k

  pub unmoved :
      (s : System H W) (h : Handler H)
      → h.store ≡ s.handler.store
      → HasTimeout h
      → Lifted s
      → Lifted (record s { handler = h })
  unmoved s h e d k = record {
    timed = d;
    executes = λ i p. subst (λ l. i < length l) (sym e) (k.executes i p);
    histories = subst (Histories s.phase s.taken) (sym e) k.histories;
  }

  pub shut :
      (s : System H W) (h : Handler H) (q : TaskQueue ℕ)
      → (h ≡ record (s.handler) { m_dpa_transaction_queue = q })
        ⊎ ((ptr : ℕ) × (t : Transaction) × (get_elem? s.handler.store ptr ≡ some t)
            × (h ≡ record (s.handler) {
              m_dpa_transaction_queue = q;
              store = set s.handler.store ptr (abort t);
            }))
      → Lifted s
      → Lifted (record s { handler = h })
  shut s h q (inl d) k =
      unmoved s h (ap (λ j. j.store) d)
        (HasTimeout-same s.handler h (ap (λ j. j.m_default_timeout) d) k.timed) k
  shut s h q (inr (ptr, t, g, d)) k =
      besides s h ptr t (abort t) (ap (λ j. j.store) d) (ap (λ j. j.m_default_timeout) d) g
        (λ w. OfOne.aborts refl) k
