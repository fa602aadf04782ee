-- ===== src/Input/Mouse/Held.antt =====
-- input.cpp: which mouse buttons the host holds down, against `mouse_press`.
use mathlib.Core.Option.{Option}
use solari.Base.{
  ℕ, zero, suc, ◌+◌, ◌<◌, ◌≡◌, ◌≢◌, refl, sym, ap, ◌∙◌, subst, Bool, true, false, not, ◌||◌, arith,
  List, [], ◌∷◌, ◌++◌, ◌⊎◌, if◌then◌else◌, ◌==◌, length, set, length-set,
}
use solari.Base.Int.{ℤ}
use solari.TaskPool
use solari.TaskPool.{TaskPool, Timer, insert_timer, split_last}
use solari.Input.State.{Limelight, Floats, World, Event, Task, button_mouse}
use solari.Input.Mouse.{
  pressed, mouse_press_size, passthrough_rel, send_abs, passthrough_abs, run_left_release,
  send_button,
}

-- Whether the last call about the button `b` pressed it. The newest call stands first.
unfoldable pub held_button : List Event → ℕ → Bool
held_button [] b = false
held_button (button_mouse c release ∷ es) b = if c == b then not release else held_button es b
held_button (_ ∷ es) b = held_button es b

-- Whether a delayed release of the left button waits.
unfoldable pub is_left_release : Timer Task → Bool
is_left_release t = elim t.task [ Option.some Task.left_release ↦ true | _ ↦ false ]

unfoldable pub waits : List (Timer Task) → Bool
unfolding is_left_release
waits [] = false
waits (t ∷ ts) = is_left_release t || waits ts

pub waits-insert_timer :
    (t : Timer Task) (ts : List (Timer Task))
    → waits (insert_timer t ts) ≡ (is_left_release t || waits ts)
unfolding waits insert_timer
waits-insert_timer t [] = refl
waits-insert_timer t (x ∷ ts) = ground (arith, waits-insert_timer t ts)

pub waits-append :
    (ts : List (Timer Task)) (t : Timer Task)
    → waits (ts ++ t ∷ []) ≡ (waits ts || is_left_release t)
unfolding waits
waits-append [] t = ground arith
waits-append (x ∷ ts) t = ground (arith, waits-append ts t)

pub pressed-set :
    (m : List Bool) (i j : ℕ) (v : Bool)
    → j < length m
    → pressed (set m i v) j ≡ (if i == j then v else pressed m j)
pressed-set [] i j v h = absurd (omega arith)
pressed-set (x ∷ m) zero zero v h = refl
pressed-set (x ∷ m) zero (suc j) v h = ground arith
pressed-set (x ∷ m) (suc i) zero v h = ground arith
pressed-set (x ∷ m) (suc i) (suc j) v h = ground (arith, pressed-set m i j v)

module _ (lim : Limelight) where
  -- The host holds the left button only if it is stored as pressed or its release waits; any other
  -- tracked button is held exactly if it is stored as pressed.
  pub record InSync (w : World) : Type 0 where
    pub size : length w.mouse_press ≡ mouse_press_size
    pub left :
        held_button w.out lim.button_left ≡ true
        → (pressed w.mouse_press lim.button_left ≡ true) ⊎ (waits w.task_pool.timer_tasks ≡ true)
    pub others :
        (b : ℕ)
        → b < mouse_press_size
        → 0 < b
        → b ≢ lim.button_left
        → held_button w.out b ≡ pressed w.mouse_press b

  -- Operations that make no call about a button, and leave the stored states and the tasks.
  Untouched : World → World → Type 0
  Untouched w v =
      (v.mouse_press ≡ w.mouse_press)
      × (v.task_pool ≡ w.task_pool)
      × ((b : ℕ) → held_button v.out b ≡ held_button w.out b)

  Untouched-InSync : {w v : World} → Untouched w v → InSync w → InSync v
  unfolding Untouched
  Untouched-InSync {w} {v} (m, p, h) s = record {
    size = ap length m ∙ s.size;
    left = λ held.
        subst (λ x. (pressed x lim.button_left ≡ true) ⊎ (waits v.task_pool.timer_tasks ≡ true))
          (sym m)
          (subst
            (λ x. (pressed w.mouse_press lim.button_left ≡ true) ⊎ (waits x.timer_tasks ≡ true))
            (sym p) (s.left (sym (h lim.button_left) ∙ held)));
    others =
        λ b small positive ne. h b ∙ s.others b small positive ne ∙ ap (λ x. pressed x b) (sym m);
  }

  pub passthrough_rel-InSync : (w : World) (x y : ℤ) → InSync w → InSync (passthrough_rel w x y)
  unfolding passthrough_rel Untouched held_button
  passthrough_rel-InSync w x y s =
      Untouched-InSync {w = w} (ground arith, ground arith, λ b. ground arith) s

  pub passthrough_abs-InSync :
      (fl : Floats) (w : World) (x y width height : ℤ)
      → InSync w
      → InSync (passthrough_abs fl w x y width height)
  unfolding passthrough_abs Untouched send_abs held_button
  passthrough_abs-InSync fl w x y width height s =
      Untouched-InSync {w = w} (ground arith, ground arith, λ b. ground arith) s

  -- What the release task needs of the state, whichever tasks wait.
  pub record Settled (w : World) : Type 0 where
    pub size : length w.mouse_press ≡ mouse_press_size
    pub others :
        (b : ℕ)
        → b < mouse_press_size
        → 0 < b
        → b ≢ lim.button_left
        → held_button w.out b ≡ pressed w.mouse_press b

  pub run_left_release-InSync : (w : World) → Settled w → InSync (run_left_release lim w)
  unfolding run_left_release held_button
  run_left_release-InSync w s = record {
    size = ground (arith, length-set w.mouse_press lim.button_left false, s.size);
    left = λ held. ground arith;
    others = λ b small positive ne. ground (
      arith,
      s.size,
      s.others b small positive ne,
      pressed-set w.mouse_press lim.button_left b false,
    );
  }

  pub send_button-size :
      (v : World) (release : Bool) (button : ℕ)
      → length (send_button lim v release button).mouse_press ≡ length v.mouse_press
  unfolding send_button
  send_button-size v release button = ground (arith, length-set v.mouse_press button false)

  -- Once the state of the button is stored, the calls bring the host to the stored state.
  pub send_button-others :
      (v : World) (release : Bool) (button b : ℕ)
      → b < length v.mouse_press
      → b ≢ lim.button_left
      → pressed v.mouse_press b ≡ (if button == b then not release else held_button v.out b)
      → held_button (send_button lim v release button).out b
        ≡ pressed (send_button lim v release button).mouse_press b
  unfolding send_button held_button
  send_button-others v release button b small ne stored =
      ground (arith, pressed-set v.mouse_press button b false)

  pub send_button-left :
      (v : World) (release : Bool) (button : ℕ) (old : Bool)
      → (held_button v.out lim.button_left ≡ true
          → (old ≡ true) ⊎ (waits v.task_pool.timer_tasks ≡ true))
      → lim.button_left < length v.mouse_press
      → pressed v.mouse_press lim.button_left
        ≡ (if button == lim.button_left then not release else old)
      → held_button (send_button lim v release button).out lim.button_left ≡ true
      → (pressed (send_button lim v release button).mouse_press lim.button_left ≡ true)
        ⊎ (waits (send_button lim v release button).task_pool.timer_tasks ≡ true)
  unfolding send_button held_button TaskPool.push_delayed is_left_release
  send_button-left v release button old before small stored held =
      let id = suc (suc v.next_task) in
      let timer : Timer Task = record {
        time = v.now + 10;
        id = id;
        task = Option.some Task.left_release;
      } in
      ground (
        arith,
        pressed-set v.mouse_press button lim.button_left false,
        waits-insert_timer timer v.task_pool.timer_tasks,
      )
