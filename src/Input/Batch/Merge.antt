-- ===== src/Input/Batch/Merge.antt =====
-- input.cpp: which packets a batch takes from the queue, and what it makes of them.
use solari.Base.{
  ◌≡◌, ◌≢◌, refl, sym, ap, ◌∙◌, subst, Bool, true, false, arith, List, [], ◌∷◌, All, ◌⊎◌, inl, inr,
  if◌then◌else◌, Bool-cases,
}
use solari.Base.Int.{ℤ, pos}
use solari.Input.State.{Limelight}
use solari.Input.Packet.{
  Packet, rel_mouse_move, abs_mouse_move, scroll, hscroll, multi_controller, touch, pen,
  controller_touch, controller_motion,
}
use solari.Input.Batch.{
  BatchResult, batched, not_batchable, terminate_batch, batch_rel, batch_abs, batch_scroll,
  batch_hscroll, batch_controller, moves, batch_touch, batch_pen, batch_controller_touch,
  batch_motion, batch, batch_queue,
}

-- A queue split into the packets taken from it and those that stay, both in their order.
pub data Taken : List Packet → List Packet → List Packet → Type 0 where
  done : {qs : List Packet} → Taken qs [] qs
  take : {q : Packet} {qs ms rs : List Packet} → Taken qs ms rs → Taken (q ∷ qs) (q ∷ ms) rs
  skip : {q : Packet} {qs ms rs : List Packet} → Taken qs ms rs → Taken (q ∷ qs) ms (q ∷ rs)

-- The last of a packet and those after it.
unfoldable pub latest_of : Packet → List Packet → Packet
latest_of p [] = p
latest_of p (q ∷ qs) = latest_of q qs

module _ (lim : Limelight) where
  -- What two packets must have in common to be merged: their type first, then the control that they
  -- are about and its discrete state. A packet that is never merged has the empty key.
  unfoldable pub key : Packet → List ℤ
  key (rel_mouse_move x y) = pos 1 ∷ []
  key (abs_mouse_move x y width height) = pos 2 ∷ width ∷ height ∷ []
  key (scroll a b) = pos 3 ∷ []
  key (hscroll a) = pos 4 ∷ []
  key (multi_controller c) =
      pos 5
      ∷ pos c.controller_number
      ∷ pos c.active_gamepad_mask
      ∷ pos c.button_flags
      ∷ pos c.button_flags2
      ∷ []
  key (touch t) =
      if moves lim t.event_type then pos 6 ∷ pos t.event_type ∷ pos t.pointer_id ∷ [] else []
  key (pen t) =
      if moves lim t.event_type
      then pos 7 ∷ pos t.event_type ∷ pos t.pen_buttons ∷ pos t.tool_type ∷ []
      else []
  key (controller_touch t) =
      if moves lim t.event_type
      then pos 8 ∷ pos t.controller_number ∷ pos t.event_type ∷ pos t.pointer_id ∷ []
      else []
  key (controller_motion m) = pos 9 ∷ pos m.controller_number ∷ pos m.motion_type ∷ []
  key _ = []

  -- Packets that state a position or a condition, of which the latest counts.
  unfoldable pub overwrites : Packet → Bool
  overwrites (rel_mouse_move x y) = false
  overwrites (scroll a b) = false
  overwrites (hscroll a) = false
  overwrites _ = true

  -- What one step of the batch makes of `p` and a packet `q` that it takes.
  record Merged (p q p' : Packet) : Type 0 where
    mergeable : key p ≢ []
    same_key : key q ≡ key p
    kept_key : key p' ≡ key p
    latest : overwrites p ≡ true → p' ≡ q
    kind : overwrites p' ≡ overwrites p

  batch-Merged : (p q p' : Packet) → batch lim p q ≡ batched p' → Merged p q p'
  unfolding batch batch_rel batch_abs batch_scroll batch_hscroll batch_controller batch_touch
      batch_pen batch_controller_touch batch_motion key overwrites
  batch-Merged (rel_mouse_move x y) (rel_mouse_move x' y') p' e = ground arith
  batch-Merged (abs_mouse_move x y w h) (abs_mouse_move x' y' w' h') p' e = ground arith
  batch-Merged (scroll a b) (scroll a' b') p' e = ground arith
  batch-Merged (hscroll a) (hscroll a') p' e = ground arith
  batch-Merged (multi_controller d) (multi_controller s) p' e = ground arith
  batch-Merged (touch d) (touch s) p' e = ground arith
  batch-Merged (pen d) (pen s) p' e = ground arith
  batch-Merged (controller_touch d) (controller_touch s) p' e = ground arith
  batch-Merged (controller_motion d) (controller_motion s) p' e = ground arith
  batch-Merged _ _ p' e = cc

  -- What the batching of `p` with a queue sends and leaves.
  pub record Batched (p : Packet) (qs : List Packet) (sent : Packet) (rest : List Packet)
      : Type 0 where
    pub merged : List Packet
    pub taken : Taken qs merged rest
    pub same_key : All (λ q. key q ≡ key p) merged
    pub kept_key : key sent ≡ key p
    pub mergeable : (merged ≡ []) ⊎ (key p ≢ [])
    pub latest : (overwrites p ≡ false) ⊎ (sent ≡ latest_of p merged)

  BatchResult-cases :
      (r : BatchResult)
      → (r ≡ terminate_batch) ⊎ (r ≡ not_batchable) ⊎ ((p : Packet) × (r ≡ batched p))
  BatchResult-cases terminate_batch = inl refl
  BatchResult-cases not_batchable = inr (inl refl)
  BatchResult-cases (batched p) = inr (inr (p, refl))

  Batched-none : (p : Packet) (qs : List Packet) → Batched p qs p qs
  unfolding latest_of
  Batched-none p qs = record {
    merged = [];
    taken = done;
    same_key = tt;
    kept_key = refl;
    mergeable = inl refl;
    latest = inr refl;
  }

  Batched-skip :
      (p q sent : Packet) (qs rest : List Packet)
      → Batched p qs sent rest
      → Batched p (q ∷ qs) sent (q ∷ rest)
  Batched-skip p q sent qs rest b = record {
    merged = b.merged;
    taken = skip b.taken;
    same_key = b.same_key;
    kept_key = b.kept_key;
    mergeable = b.mergeable;
    latest = b.latest;
  }

  All-key :
      (ms : List Packet) (k k' : List ℤ)
      → k ≡ k'
      → All (λ q. key q ≡ k) ms
      → All (λ q. key q ≡ k') ms
  All-key ms k k' e = subst (λ z. All (λ q. key q ≡ z) ms) e

  latest_take :
      (p q p' sent : Packet) (ms : List Packet)
      → Merged p q p'
      → (overwrites p' ≡ false) ⊎ (sent ≡ latest_of p' ms)
      → (overwrites p ≡ false) ⊎ (sent ≡ latest_of p (q ∷ ms))
  unfolding latest_of
  latest_take p q p' sent ms m (inl sums) = inl (sym m.kind ∙ sums)
  latest_take p q p' sent ms m (inr e) = elim (Bool-cases (overwrites p)) [
    | inl over ↦ inr (e ∙ ap (λ z. latest_of z ms) (m.latest over))
    | inr sums ↦ inl sums
  ]

  Batched-take :
      (p q p' sent : Packet) (qs rest : List Packet)
      → Merged p q p'
      → Batched p' qs sent rest
      → Batched p (q ∷ qs) sent rest
  Batched-take p q p' sent qs rest m b = record {
    merged = q ∷ b.merged;
    taken = take b.taken;
    same_key = (m.same_key, All-key b.merged (key p') (key p) m.kept_key b.same_key);
    kept_key = b.kept_key ∙ m.kept_key;
    mergeable = inr m.mergeable;
    latest = latest_take p q p' sent b.merged m b.latest;
  }

  -- Batching takes from the queue, in their order, only packets with the key of the one it sends, and
  -- takes none if that key is empty; the others stay in their order. The packet sent keeps the key,
  -- and where the latest packet counts, it is the last one taken.
  pub batch_queue-Batched :
      (p : Packet) (qs : List Packet)
      → let (sent, rest) = batch_queue lim p qs in Batched p qs sent rest
  unfolding batch_queue
  batch_queue-Batched p [] = Batched-none p []
  batch_queue-Batched p (q ∷ qs) = elim (BatchResult-cases (batch lim p q)) [
    | inl e ↦
        let same : batch_queue lim p (q ∷ qs) ≡ (p, q ∷ qs) = ground arith in
        subst (λ r. Batched p (q ∷ qs) r.0 r.1) (sym same) (Batched-none p (q ∷ qs))
    | inr (inl e) ↦
        let (sent, rest) = batch_queue lim p qs in
        let same : batch_queue lim p (q ∷ qs) ≡ (sent, q ∷ rest) = ground arith in
        subst (λ r. Batched p (q ∷ qs) r.0 r.1) (sym same)
          (Batched-skip p q sent qs rest (batch_queue-Batched p qs))
    | inr (inr (p', e)) ↦
        let (sent, rest) = batch_queue lim p' qs in
        let same : batch_queue lim p (q ∷ qs) ≡ (sent, rest) = ground arith in
        subst (λ r. Batched p (q ∷ qs) r.0 r.1) (sym same)
          (Batched-take p q p' sent qs rest (batch-Merged p q p' e) (batch_queue-Batched p' qs))
  ]
