-- ===== src/Input/Mouse/Run.antt =====
-- input.cpp: mouse packets and the worker's release task, in any order.
use mathlib.Core.Option.{Option}
use solari.Base.{
  ℕ, ◌<◌, ◌≡◌, ap, Bool, true, false, not, ◌||◌, arith, List, [], ◌∷◌, ◌⊎◌, inl, inr, Option-cases,
  set, length-set,
}
use solari.Base.Int.{ℤ}
use solari.TaskPool
use solari.TaskPool.{TaskPool, Timer, split_last}
use solari.TaskPool.Order.{split_last-eq}
use solari.Input.State.{Limelight, Floats, World, Task}
use solari.Input.Mouse.{
  pressed, mouse_press_size, passthrough_rel, passthrough_abs, run_left_release, passthrough_button,
}
use solari.Input.Mouse.Held.{
  held_button, waits, waits-append, is_left_release, pressed-set, InSync, Settled,
  passthrough_rel-InSync, passthrough_abs-InSync, run_left_release-InSync, send_button-size,
  send_button-others, send_button-left,
}

abbrev is_release : Option (Option Task) → Bool
is_release (Option.some (Option.some Task.left_release)) = true
is_release _ = false

-- A worker's round takes the release task, or leaves it where it is.
pop-waits :
    (p : TaskPool Task) (now : ℕ)
    → waits p.timer_tasks ≡ true
    → (is_release (TaskPool.pop p now).0 || waits (TaskPool.pop p now).1.timer_tasks) ≡ true
unfolding TaskPool.pop is_left_release
pop-waits p now h = elim (Option-cases (split_last p.timer_tasks)) [
  | inl e ↦ ground arith
  | inr ((front, t), e) ↦
      let whole = ap waits (split_last-eq p.timer_tasks front t e) in
      ground (arith, whole, waits-append front t)
]

-- What reaches the mouse code.
pub data Step : Type 0 where
  rel : ℤ → ℤ → Step
  abs : ℤ → ℤ → ℤ → ℤ → Step
  click : Bool → ℕ → Step
  worker : ℕ → Step

module _ (lim : Limelight) where
  -- What the worker runs: the release task, or a task that is not the mouse's.
  unfoldable pub run_popped : Option (Option Task) → World → World
  run_popped (Option.some (Option.some Task.left_release)) w = run_left_release lim w
  run_popped _ w = w

  -- One round of the worker thread at the time `now`.
  unfoldable pub work : World → ℕ → World
  work w now =
      let (task, pool) = TaskPool.pop w.task_pool now in
      run_popped task (record w { task_pool = pool; now = now })

  unfoldable pub run : Floats → World → List Step → World
  run fl w [] = w
  run fl w (rel x y ∷ steps) = run fl (passthrough_rel w x y) steps
  run fl w (abs x y width height ∷ steps) = run fl (passthrough_abs fl w x y width height) steps
  run fl w (click release b ∷ steps) = run fl (passthrough_button lim w release b) steps
  run fl w (worker now ∷ steps) = run fl (work w now) steps

module _ (lim : Limelight) (positive_left : 0 < lim.button_left)
    (small_left : lim.button_left < mouse_press_size) where
  passthrough_button-InSync :
      (w : World) (release : Bool) (button : ℕ)
      → InSync lim w
      → InSync lim (passthrough_button lim w release button)
  unfolding passthrough_button
  passthrough_button-InSync w release button s =
      let v = record w { mouse_press = set w.mouse_press button (not release) } in
      record {
        size = ground (
          arith,
          s.size,
          length-set w.mouse_press button (not release),
          send_button-size lim v release button,
          send_button-size lim w release button,
        );
        left = λ held. ground (
          arith,
          s.size,
          s.left,
          length-set w.mouse_press button (not release),
          pressed-set w.mouse_press button lim.button_left (not release),
          send_button-left lim v release button (pressed w.mouse_press lim.button_left) s.left,
          send_button-left lim w release button (pressed w.mouse_press lim.button_left) s.left,
        );
        others = λ b small positive ne. ground (
          arith,
          s.size,
          s.others b small positive ne,
          length-set w.mouse_press button (not release),
          pressed-set w.mouse_press button b (not release),
          send_button-others lim v release button b,
          send_button-others lim w release button b,
        );
      }

  InSync-Settled :
      {w : World}
      → InSync lim w
      → (pool : TaskPool Task) (now : ℕ) → Settled lim (record w { task_pool = pool; now = now })
  InSync-Settled s pool now = record { size = s.size; others = s.others }

  run_popped-InSync :
      (task : Option (Option Task)) (w : World)
      → Settled lim w
      → (held_button w.out lim.button_left ≡ true
          → (pressed w.mouse_press lim.button_left ≡ true)
            ⊎ ((is_release task || waits w.task_pool.timer_tasks) ≡ true))
      → InSync lim (run_popped lim task w)
  unfolding run_popped
  run_popped-InSync (Option.some (Option.some Task.left_release)) w s h =
      run_left_release-InSync lim w s
  run_popped-InSync (Option.some (Option.some (Task.repeat_key k f m))) w s h = record {
    size = s.size;
    left = h;
    others = s.others;
  }
  run_popped-InSync _ w s h = record { size = s.size; left = h; others = s.others }

  work-InSync : (w : World) (now : ℕ) → InSync lim w → InSync lim (work lim w now)
  unfolding work
  work-InSync w now s =
      let (task, pool) = TaskPool.pop w.task_pool now in
      run_popped-InSync task (record w { task_pool = pool; now = now }) (InSync-Settled s pool now)
        λ held. elim (s.left held) [
          | inl stored ↦ inl stored
          | inr waiting ↦ inr (pop-waits w.task_pool now waiting)
        ]

  -- From a synchronised state, after any mouse packets and rounds of the worker, each tracked button
  -- but the left one is held by the host exactly if it is stored as pressed, and the left one is held
  -- only if it is stored as pressed or its delayed release still waits.
  pub run-InSync :
      (fl : Floats) (w : World) (steps : List Step) → InSync lim w → InSync lim (run lim fl w steps)
  unfolding run
  run-InSync fl w [] s = s
  run-InSync fl w (rel x y ∷ steps) s =
      run-InSync fl (passthrough_rel w x y) steps (passthrough_rel-InSync lim w x y s)
  run-InSync fl w (abs x y width height ∷ steps) s =
      run-InSync fl (passthrough_abs fl w x y width height) steps
        (passthrough_abs-InSync lim fl w x y width height s)
  run-InSync fl w (click release b ∷ steps) s =
      run-InSync fl (passthrough_button lim w release b) steps
        (passthrough_button-InSync w release b s)
  run-InSync fl w (worker now ∷ steps) s =
      run-InSync fl (work lim w now) steps (work-InSync w now s)
