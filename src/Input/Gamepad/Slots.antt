-- ===== src/Input/Gamepad/Slots.antt =====
-- input.cpp: the slots of the virtual gamepads: which one is given out, and who owns it.
use mathlib.Core.Option.{Option, some, none, some-injective}
use native.Mathlib.Decide.{ℕ_discrete}
use solari.Base.{
  ℕ, zero, suc, ◌<◌, ◌≡◌, ◌≢◌, refl, sym, ap, ◌∙◌, subst, Bool, true, false, arith, List, [], ◌∷◌,
  inl, inr, Bool-cases, Option-cases, set, get_elem?, get_elem?-lt, get_elem?-set_self,
  get_elem?-set_ne, All,
}
use solari.Input.State.{Gamepad, World}
use solari.Input.Gamepad.{Backend, alloc_id, claim_slot, alloc}

-- Whether the slot `x` is taken.
abbrev pub taken : List Bool → ℕ → Bool
taken m x = elim (get_elem? m x) [ none ↦ false | some b ↦ b ]

-- `alloc_id` gives out the first free slot and marks it alone, and fails only if all are taken.
abbrev pub Allocated : List Bool → Option (ℕ × List Bool) → Type 0
Allocated m none = All (λ b. b ≡ true) m
Allocated m (some (x, m')) =
    (get_elem? m x ≡ some false) × (m' ≡ set m x true) × ((y : ℕ) → y < x → taken m y ≡ true)

pub alloc_id-Allocated : (m : List Bool) → Allocated m (alloc_id m)
unfolding alloc_id
alloc_id-Allocated [] = tt
alloc_id-Allocated (false ∷ m) = (refl, refl, λ y h. absurd (omega arith))
alloc_id-Allocated (true ∷ m) = elim (Option-cases (alloc_id m)) [
  | inl e ↦
      let same : alloc_id (true ∷ m) ≡ none = ground arith in
      let rest = subst (Allocated m) e (alloc_id-Allocated m) in
      subst (Allocated (true ∷ m)) (sym same) (refl, rest)
  | inr ((x, m'), e) ↦
      let same : alloc_id (true ∷ m) ≡ some (suc x, true ∷ m') = ground arith in
      let rest = subst (Allocated m) e (alloc_id-Allocated m) in
      subst (Allocated (true ∷ m)) (sym same) (
        rest.0,
        ap (λ r. true ∷ r) rest.1,
        elim [ zero ↦ λ h. refl | suc y ↦ λ h. rest.2 y (omega arith) ],
      )
]

-- Every slot that a gamepad of the session has is taken, and no two gamepads have the same one.
pub record Owned (w : World) : Type 0 where
  pub marked :
      (i k : ℕ) (g : Gamepad)
      → get_elem? w.gamepads i ≡ some g
      → g.id ≡ some k
      → get_elem? w.gamepad_mask k ≡ some true
  pub apart :
      (i j k : ℕ) (g h : Gamepad)
      → get_elem? w.gamepads i ≡ some g
      → get_elem? w.gamepads j ≡ some h
      → g.id ≡ some k
      → h.id ≡ some k
      → i ≡ j

module _ (backend : Backend) (w : World) (o : Owned w) (index : ℕ) (g : Gamepad)
    (here : get_elem? w.gamepads index ≡ some g) (x : ℕ)
    (unused : get_elem? w.gamepad_mask x ≡ some false) where
  -- The slot is nobody's.
  unowned : (i : ℕ) (h : Gamepad) → get_elem? w.gamepads i ≡ some h → h.id ≡ some x → ⊥
  unowned i h e q = let t = o.marked i x h e q in cc

  refused_marked :
      (i k : ℕ) (h : Gamepad)
      → get_elem? w.gamepads i ≡ some h
      → h.id ≡ some k
      → get_elem? (set (set w.gamepad_mask x true) x false) k ≡ some true
  refused_marked i k h e q = elim (ℕ_discrete x k) [
    | yes same ↦ absurd (unowned i h e (q ∙ ap some (sym same)))
    | no differs ↦
        get_elem?-set_ne (set w.gamepad_mask x true) x k false differs
        ∙ get_elem?-set_ne w.gamepad_mask x k true differs
        ∙ o.marked i k h e q
  ]

  new : Gamepad
  new = record g { id = some x }

  granted : List Gamepad
  granted = set w.gamepads index new

  at_index : (h : Gamepad) → get_elem? granted index ≡ some h → new ≡ h
  unfolding granted
  at_index h e =
      some-injective new h
        (sym (get_elem?-set_self w.gamepads index new (get_elem?-lt w.gamepads index here)) ∙ e)

  at_same :
      (i : ℕ) (h : Gamepad)
      → index ≡ i
      → get_elem? granted i ≡ some h
      → get_elem? granted index ≡ some h
  at_same i h same e = subst (λ z. get_elem? granted z ≡ some h) (sym same) e

  elsewhere :
      (i : ℕ) (h : Gamepad)
      → index ≢ i
      → get_elem? granted i ≡ some h
      → get_elem? w.gamepads i ≡ some h
  unfolding granted
  elsewhere i h differs e = sym (get_elem?-set_ne w.gamepads index i new differs) ∙ e

  new_id : (h : Gamepad) (k : ℕ) → new ≡ h → h.id ≡ some k → x ≡ k
  unfolding new
  new_id h k e q = some-injective x k (ap (λ (r : Gamepad). r.id) e ∙ q)

  granted_marked :
      (i k : ℕ) (h : Gamepad)
      → get_elem? granted i ≡ some h
      → h.id ≡ some k
      → get_elem? (set w.gamepad_mask x true) k ≡ some true
  granted_marked i k h e q = elim (ℕ_discrete x k) [
    | yes same ↦
        subst (λ y. get_elem? (set w.gamepad_mask x true) y ≡ some true) same
          (get_elem?-set_self w.gamepad_mask x true (get_elem?-lt w.gamepad_mask x unused))
    | no differs ↦ elim (ℕ_discrete index i) [
      | yes same ↦ absurd (differs (new_id h k (at_index h (at_same i h same e)) q))
      | no other ↦
          get_elem?-set_ne w.gamepad_mask x k true differs
          ∙ o.marked i k h (elsewhere i h other e) q
    ]
  ]

  granted_apart :
      (i j k : ℕ) (h h' : Gamepad)
      → get_elem? granted i ≡ some h
      → get_elem? granted j ≡ some h'
      → h.id ≡ some k
      → h'.id ≡ some k
      → i ≡ j
  granted_apart i j k h h' e e' q q' = elim (ℕ_discrete index i) [
    | yes si ↦ elim (ℕ_discrete index j) [
      | yes sj ↦ sym si ∙ sj
      | no nj ↦
          let same = new_id h k (at_index h (at_same i h si e)) q in
          absurd (unowned j h' (elsewhere j h' nj e') (q' ∙ ap some (sym same)))
    ]
    | no ni ↦ elim (ℕ_discrete index j) [
      | yes sj ↦
          let same = new_id h' k (at_index h' (at_same j h' sj e')) q' in
          absurd (unowned i h (elsewhere i h ni e) (q ∙ ap some (sym same)))
      | no nj ↦ o.apart i j k h h' (elsewhere i h ni e) (elsewhere j h' nj e') q q'
    ]
  ]

  pub claim_slot-Owned : Owned (claim_slot backend w index g x (set w.gamepad_mask x true)).1
  unfolding claim_slot granted new
  claim_slot-Owned = elim (Bool-cases (backend.alloc_fails w.out x index)) [
    | inl refused ↦ rw refused (record { marked = refused_marked; apart = o.apart })
    | inr made ↦ rw made (record { marked = granted_marked; apart = granted_apart })
  ]

-- Giving a session's controller a slot keeps the slots owned.
pub alloc-Owned :
    (backend : Backend) (w : World) (index : ℕ) → Owned w → Owned (alloc backend w index).1
unfolding alloc
alloc-Owned backend w index o = elim (Option-cases (get_elem? w.gamepads index)) [
  | inl e ↦ rw (e, alloc) o
  | inr (g, e) ↦ elim (Option-cases g.id) [
    | inr (id, has) ↦ rw (e, has, alloc) o
    | inl free ↦ elim (Option-cases (alloc_id w.gamepad_mask)) [
      | inl full ↦ rw (e, free, full, alloc) o
      | inr ((x, m), found) ↦
          let facts = subst (Allocated w.gamepad_mask) found (alloc_id-Allocated w.gamepad_mask) in
          rw (e, free, found, facts.1, alloc) (claim_slot-Owned backend w o index g e x facts.0)
    ]
  ]
]
