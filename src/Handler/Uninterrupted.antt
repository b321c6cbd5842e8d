-- ===== src/Handler/Uninterrupted.antt =====
-- The processing function of the queue as three steps of the threads, with nothing in between.
use clibdpa.Base.{ℕ, ◌≡◌, refl, Bool, List, some}
use clibdpa.TaskQueue.{processing}
use clibdpa.Handler.Types.{Handler}
use clibdpa.Handler.Submit.{process_transaction}
use clibdpa.Handler.Forms.{process-form}
use clibdpa.Handler.Steps.{System, in_queue, executing, Reach, picks, chooses, starts, next}

module _ {H W : Type 0} (send_to : List ℕ → W → W × Bool) where
  -- What process_transaction makes of a reached state is reached.
  pub Reach-process :
      {w : W} {s : System H W} (ptr fuel : ℕ) (h : Handler H) (v : W)
      → Reach send_to w s
      → s.phase ≡ in_queue (processing ptr)
      → process_transaction send_to fuel s.handler ptr s.world ≡ some (h, v)
      → Reach send_to w (record s { handler = h; phase = executing ptr; world = v })
  Reach-process {s} ptr fuel h v r p e =
      let (t, g, b) = process-form send_to fuel s.handler ptr s.world e in
      next (next (next r (picks ptr p refl)) (chooses ptr t refl g refl))
        (starts ptr fuel _ h v refl b refl)
