-- ===== src/Handler/OnWire.antt =====
-- What the handler gives to its channel: the requests of the transactions that were taken up, in order.
use clibdpa.Base.{
  ℕ, ◌≡◌, ◌⊎◌, inl, inr, refl, sym, ap, subst, ◌∙◌, Bool, true, List, [], ◌∷◌, ◌++◌, some, ◌==◌,
  get_elem?, set, get_elem?-set_self, get_elem?-set_ne, get_elem?-append_left, get_elem?-lt, arith,
  Bool-cases,
}
use clibdpa.Message.Contents.{contents}
use clibdpa.TaskQueue.{Worker, checking, waiting, processing, joined, locked_twice}
use clibdpa.TaskQueue.Steps.{taken_up}
use clibdpa.Transaction.Types.{Transaction, request_of}
use clibdpa.Base.Int.{ℤ}
use clibdpa.Transaction.Execute.{begin}
use clibdpa.Transaction.Requests.{begin-world}
use clibdpa.Handler.Submit.{send_request}
use clibdpa.Handler.Steps.{is_between}

-- The strings that were sent for these transactions: for each in turn the bytes of its request, or none.
pub data Sends (store : List Transaction) : List ℕ → List (List ℕ) → Type 0 where
  none_yet : Sends store [] []
  sends :
      (ptr : ℕ) (t : Transaction) {taken : List ℕ} {log : List (List ℕ)}
      → get_elem? store ptr ≡ some t
      → Sends store taken log
      → Sends store (taken ++ ptr ∷ []) (log ++ contents (request_of t) ∷ [])
  withholds :
      (ptr : ℕ) {taken : List ℕ} {log : List (List ℕ)}
      → Sends store taken log
      → Sends store (taken ++ ptr ∷ []) log

-- The transactions of a store are those of another, with the same requests.
abbrev pub Keeps : List Transaction → List Transaction → Type 0
Keeps store store' =
    (i : ℕ) (t : Transaction)
    → get_elem? store i ≡ some t
    → (t' : Transaction) × (get_elem? store' i ≡ some t') × (request_of t' ≡ request_of t)

pub Keeps-Sends :
    {store store' : List Transaction} {taken : List ℕ} {log : List (List ℕ)}
    → Keeps store store'
    → Sends store taken log
    → Sends store' taken log
Keeps-Sends k none_yet = none_yet
Keeps-Sends {store'} k (sends ptr t {taken} {log} g s) =
    let (t', g', q) = k ptr t g in
    subst (λ m. Sends store' (taken ++ ptr ∷ []) (log ++ contents m ∷ [])) q
      (sends ptr t' g' (Keeps-Sends k s))
Keeps-Sends k (withholds ptr s) = withholds ptr (Keeps-Sends k s)

pub Keeps-refl : (store : List Transaction) → Keeps store store
Keeps-refl store i t g = (t, g, refl)

pub Keeps-set :
    (store : List Transaction) (ptr : ℕ) (t t' : Transaction)
    → get_elem? store ptr ≡ some t
    → request_of t' ≡ request_of t
    → Keeps store (set store ptr t')
Keeps-set store ptr t t' g q i k e = elim (Bool-cases (ptr == i)) [
  | inl c ↦
      let same : ptr ≡ i = ground arith in
      (
        t',
        subst (λ j. get_elem? (set store ptr t') j ≡ some t') same
            (get_elem?-set_self store ptr t' (get_elem?-lt store ptr g)),
        cc (q, subst (λ j. get_elem? store j ≡ some t) same g, e),
      )
  | inr c ↦ (k, get_elem?-set_ne store ptr i t' (λ n. ground arith) ∙ e, refl)
]

pub Keeps-append : (store more : List Transaction) → Keeps store (store ++ more)
Keeps-append store more i t g =
    (t, get_elem?-append_left store more i (get_elem?-lt store i g) ∙ g, refl)

pub between-none : (w : Worker ℕ) → is_between w ≡ true → taken_up w ≡ []
between-none (processing ptr) e = cc e
between-none (checking held) e = refl
between-none waiting e = refl
between-none joined e = refl
between-none locked_twice e = refl

-- A channel that is seen through a log of the strings that went out, of which a call of sendTo adds its
-- string once or not at all.
module _ {W : Type 0} (send_to : List ℕ → W → W × Bool) (log : W → List (List ℕ))
    (once : (m : List ℕ) (w : W)
      → (log (send_to m w).0 ≡ log w) ⊎ (log (send_to m w).0 ≡ log w ++ m ∷ [])) where
  -- What execute() sends at its start.
  pub sent_at_start :
      (fuel : ℕ) (t t' : Transaction) (error : ℤ) (w v : W)
      → begin (send_request send_to) fuel t error w ≡ some (t', v)
      → (log v ≡ log w) ⊎ (log v ≡ log w ++ contents (request_of t) ∷ [])
  unfolding send_request
  sent_at_start fuel t t' error w v b = elim (begin-world (send_request send_to) fuel t error w b) [
    | inl e ↦ inl (ap log e)
    | inr e ↦ elim (once (contents (request_of t)) w) [
      | inl o ↦ inl (ap log e ∙ o)
      | inr o ↦ inr (ap log e ∙ o)
    ]
  ]

  pub begun_on :
      (store : List Transaction) (begun : List ℕ) (ptr : ℕ) (t : Transaction) (w v : W)
      → get_elem? store ptr ≡ some t
      → (log v ≡ log w) ⊎ (log v ≡ log w ++ contents (request_of t) ∷ [])
      → Sends store begun (log w)
      → Sends store (begun ++ ptr ∷ []) (log v)
  begun_on store begun ptr t w v g (inl e) o =
      subst (Sends store (begun ++ ptr ∷ [])) (sym e) (withholds ptr o)
  begun_on store begun ptr t w v g (inr e) o =
      subst (Sends store (begun ++ ptr ∷ [])) (sym e) (sends ptr t g o)
