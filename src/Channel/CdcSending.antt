-- ===== src/Channel/CdcSending.antt =====
-- How often sendTo of the CDC channel sends, and what makes it throw: the driver is watched by a log of
-- its responses.
use mathlib.Core.List.{append_assoc}
use clibdpa.Base.{
  ℕ, zero, suc, ◌+◌, ◌<◌, ◌≡◌, ◌⊎◌, inl, inr, refl, ◌∙◌, true, false, not, List, [], ◌∷◌, ◌++◌,
  Option, none, some, All, length, arith, Bool-cases,
}
use clibdpa.Channel.Cdc.{CdcDriver, try_to_send, send_to}

module _ {W R : Type 0} where
  -- The driver with a log of its responses.
  abbrev pub logged : CdcDriver W R → CdcDriver (W × List R) R
  logged d = record {
    send_data = λ m v. let r = d.send_data m v.0 in ((r.0, v.1 ++ r.1 ∷ []), r.1);
    is_busy = d.is_busy;
    is_ok = d.is_ok;
  }

  -- What happens in the sleep is not logged.
  abbrev pub unlogged : (W → W) → W × List R → W × List R
  unlogged pause v = (pause v.0, v.1)

  module _ (d : CdcDriver W R) (pause : W → W) (message : List ℕ) where
    abbrev pub IsBusy : R → Type 0
    IsBusy r = d.is_busy r ≡ true

    -- The responses of the attempts: all but the last are BUSY, and so is the last, unless attempts are
    -- left.
    pub record Tried (left : ℕ) (before after : List R) (last : R) : Type 0 where
      pub busy : List R
      pub log : after ≡ before ++ (busy ++ last ∷ [])
      pub all_busy : All IsBusy busy
      pub few : length busy < left
      pub given_up : (d.is_busy last ≡ false) ⊎ (length busy + 1 ≡ left)

    -- A loop with so many attempts left ends with a response.
    abbrev Ends : ℕ → List R → List R → Option R → Type 0
    Ends left log after o = (last : R) × (o ≡ some last) × Tried left log after last

    once :
        (left : ℕ) (log : List R) (r : R)
        → (d.is_busy r ≡ false) ⊎ (left ≡ 0)
        → Ends (suc left) log (log ++ r ∷ []) (some r)
    once left log r g = (
      r,
      refl,
      record { busy = []; log = refl; all_busy = tt; few = omega arith; given_up = ground arith },
    )

    once_more :
        (left : ℕ) (log after : List R) (r : R) (o : Option R)
        → d.is_busy r ≡ true
        → Ends left (log ++ r ∷ []) after o
        → Ends (suc left) log after o
    once_more left log after r o b (last, e, t) = (
      last,
      e,
      record {
        busy = r ∷ t.busy;
        log = t.log ∙ append_assoc log (r ∷ []) (t.busy ++ last ∷ []);
        all_busy = (b, t.all_busy);
        few = omega (arith, t.few);
        given_up = ground (arith, t.given_up);
      },
    )

    response_to : W × List R → R
    response_to v = (d.send_data message v.0).1

    try_to_send-Ends :
        (left : ℕ) (last : Option R) (v : W × List R)
        → let (v', o) = try_to_send (logged d) (unlogged pause) (suc left) message last v in
          Ends (suc left) v.1 v'.1 o
    unfolding try_to_send response_to
    try_to_send-Ends zero last v = elim (Bool-cases (d.is_busy (response_to v))) [
      | inl b ↦ rw (b, try_to_send) (once 0 v.1 (response_to v) (inr refl))
      | inr b ↦ rw (b, try_to_send) (once 0 v.1 (response_to v) (inl b))
    ]
    try_to_send-Ends (suc k) last v =
        let rest =
          try_to_send-Ends k (some (response_to v))
            (pause (d.send_data message v.0).0, v.1 ++ response_to v ∷ []) in
        elim (Bool-cases (d.is_busy (response_to v))) [
          | inl b ↦ rw (b, try_to_send) (once_more (suc k) v.1 _ (response_to v) _ b rest)
          | inr b ↦ rw (b, try_to_send) (once (suc k) v.1 (response_to v) (inl b))
        ]

    -- For every driver, whatever it answers: sendTo sends the message at most 4 times, again only
    -- after BUSY, and gives up on BUSY only after 4 times; it throws exactly if the last response is
    -- not OK.
    pub send_to-Tried :
        (w : W) (log : List R)
        → let (v, threw) = send_to (logged d) (unlogged pause) message (w, log) in
          (last : R) × Tried 4 log v.1 last × (threw ≡ not (d.is_ok last))
    unfolding send_to
    send_to-Tried w log = let (r, e, t) = try_to_send-Ends 3 none (w, log) in (r, t, rw e refl)
