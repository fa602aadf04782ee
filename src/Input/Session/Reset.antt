-- ===== src/Input/Session/Reset.antt =====
-- input.cpp: what a reset leaves held down: no key, no button, unless the release of the left button
-- was still to come.
use solari.Base.{
  ℕ, zero, suc, ◌+◌, ◌<◌, ◌≡◌, refl, ◌∙◌, Bool, true, false, arith, List, [], ◌∷◌, if◌then◌else◌,
  length,
}
use solari.TaskPool
use solari.TaskPool.{TaskPool, Timer, erase_timer}
use solari.Input.State.{Limelight, Gamepad, World, Event, Task, emit}
use solari.Input.Keyboard.{release_key, release_keys, reset_keyboard_keys}
use solari.Input.Mouse.{
  pressed, mouse_press_size, release_buttons, reset_mouse_buttons, passthrough_button, send_button,
  enable_left_button_delay,
}
use solari.Input.Mouse.Held.{held_button, waits, InSync, pressed-set}
use solari.Input.Gamepad.{neutralise_one, neutralise, reset_gamepads}
use solari.Input.Session.{reset_input_state, reset}

-- The loop touches no button before the one that it has come to.
release_buttons_before :
    (w : World) (b : ℕ) (m : List Bool) (k : ℕ)
    → k < b
    → held_button (release_buttons w b m).out k ≡ held_button w.out k
unfolding release_buttons held_button
release_buttons_before w b [] k h = refl
release_buttons_before w b (true ∷ m) k h =
    ground (arith, release_buttons_before (emit w (Event.button_mouse b true)) (b + 1) m k)
release_buttons_before w b (false ∷ m) k h = ground (arith, release_buttons_before w (b + 1) m k)

-- It releases the buttons that are stored as pressed, and leaves the others.
release_buttons_held :
    (w : World) (b : ℕ) (m : List Bool) (j : ℕ)
    → held_button (release_buttons w b m).out (b + j)
      ≡ (if pressed m j then false else held_button w.out (b + j))
unfolding release_buttons held_button
release_buttons_held w b [] j = refl
release_buttons_held w b (true ∷ m) zero =
    ground (arith, release_buttons_before (emit w (Event.button_mouse b true)) (b + 1) m b)
release_buttons_held w b (false ∷ m) zero =
    ground (arith, release_buttons_before w (b + 1) m (b + 0))
release_buttons_held w b (true ∷ m) (suc j) =
    ground (arith, release_buttons_held (emit w (Event.button_mouse b true)) (b + 1) m j)
release_buttons_held w b (false ∷ m) (suc j) = ground (arith, release_buttons_held w (b + 1) m j)

pub reset_mouse_buttons_held :
    (w : World) (b : ℕ)
    → held_button (reset_mouse_buttons w).out b
      ≡ (if pressed w.mouse_press b then false else held_button w.out b)
unfolding reset_mouse_buttons
reset_mouse_buttons_held w b = ground (arith, release_buttons_held w 0 w.mouse_press b)

release_keys_buttons :
    (w : World) (m : List (ℕ × Bool)) (b : ℕ)
    → held_button (release_keys w m).out b ≡ held_button w.out b
unfolding release_keys release_key held_button
release_keys_buttons w [] b = refl
release_keys_buttons w ((kpid, held) ∷ m) b =
    release_keys_buttons (release_key w kpid held) m b ∙ ground arith

neutralise_buttons :
    (w : World) (i : ℕ) (gs : List Gamepad) (b : ℕ)
    → held_button (neutralise w i gs).out b ≡ held_button w.out b
unfolding neutralise held_button
neutralise_buttons w i [] b = refl
neutralise_buttons w i (g ∷ gs) b =
    neutralise_buttons (neutralise_one w i g) (i + 1) gs b ∙ ground arith

-- A session's reset does to the buttons what the loop over `mouse_press` does.
pub reset_input_state_buttons :
    (w : World) (b : ℕ)
    → held_button (reset_input_state w).out b
      ≡ (if pressed w.mouse_press b then false else held_button w.out b)
unfolding reset_input_state reset_gamepads reset_keyboard_keys held_button
reset_input_state_buttons w b =
    let m = reset_mouse_buttons w in
    let k = reset_keyboard_keys m in
    ground (
      arith,
      reset_mouse_buttons_held w b,
      release_keys_buttons m m.key_press b,
      neutralise_buttons k 0 k.gamepads b,
    )

-- With no delayed release of the left button to come, a session's reset leaves the host with no
-- tracked button held.
pub reset_input_state-releases :
    (lim : Limelight) (w : World) (b : ℕ)
    → InSync lim w
    → waits w.task_pool.timer_tasks ≡ false
    → 0 < b
    → b < mouse_press_size
    → held_button (reset_input_state w).out b ≡ false
reset_input_state-releases lim w b s none positive small =
    ground (arith, s.left, s.others b, reset_input_state_buttons w b)

-- A delayed task that stands alone is gone once it is cancelled.
cancel_alone :
    (p : TaskPool Task) (now n : ℕ)
    → p.timer_tasks ≡ []
    → let q = TaskPool.push_delayed p now 10 (suc (suc n)) Task.left_release in
      (TaskPool.cancel (TaskPool.cancel q 0).1 (suc (suc n))).1.timer_tasks ≡ []
unfolding TaskPool.push_delayed TaskPool.cancel erase_timer TaskPool.names
cancel_alone p now n idle = rw idle (ground arith)

-- After a release of the left button whose call is delayed, `reset` cancels the delayed call, and
-- what the worker does next does not make it: the host holds the button, and nothing will release it.
pub reset-left_held :
    (lim : Limelight) (w : World)
    → w.config.mouse ≡ true
    → 0 < lim.button_left
    → lim.button_left < length w.mouse_press
    → length w.mouse_press ≡ mouse_press_size
    → pressed w.mouse_press lim.button_left ≡ true
    → held_button w.out lim.button_left ≡ true
    → w.mouse_left_button_timeout ≡ enable_left_button_delay
    → w.key_press_repeat_id ≡ 0
    → w.task_pool.timer_tasks ≡ []
    → let v = reset (passthrough_button lim w true lim.button_left) in
      (v.task_pool.timer_tasks ≡ [])
      × (held_button (reset_input_state v).out lim.button_left ≡ true)
unfolding reset passthrough_button send_button TaskPool.push
reset-left_held lim w on positive small size pr held enabled quiet idle =
    let v = passthrough_button lim w true lim.button_left in
    let stored = pressed-set w.mouse_press lim.button_left lim.button_left false in
    let id = suc (suc w.next_task) in
    let timeout : v.mouse_left_button_timeout ≡ id = ground arith in
    let repeat : v.key_press_repeat_id ≡ 0 = ground arith in
    let pool : v.task_pool ≡ TaskPool.push_delayed w.task_pool w.now 10 id Task.left_release =
      ground arith in
    (
      rw (timeout, repeat, pool) (cancel_alone w.task_pool w.now w.next_task idle),
      ground (arith, reset_input_state_buttons (reset v) lim.button_left),
    )
