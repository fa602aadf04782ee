-- ===== src/ThreadSafe/Shared.antt =====
-- thread_safe.h: `shared_t`, an object that exists while pointers own it, and the pointers.
use solari.Base.{
  ℕ, zero, suc, ◌+◌, ◌%◌, ◌≤◌, ◌<◌, ◌≡◌, refl, ap, List, [], ◌∷◌, Bool, true, false, arith, length,
  set, length-set, ltb, ◌==◌, if◌then◌else◌, Bool-cases, inl, inr,
}

-- `_count`, of 32 bits, and whether `_object_buf` holds an object that was constructed with success.
pub record Shared : Type 0 where
  pub count : ℕ
  pub is_alive : Bool

-- A `shared_t` with its pointers, each by whether `owner` is set.
pub record Pointers : Type 0 where
  pub shared : Shared
  pub owners : List Bool

-- `ref`: whether the pointer owns the object, where `_construct` would succeed if `succeeds`.
unfoldable pub ref : Bool → Shared → Bool × Shared
ref succeeds s =
    if s.count == 0
    then if succeeds then (true, record { count = 1; is_alive = true }) else (false, s)
    else (true, record s { count = (s.count + 1) % 4294967296 })

unfoldable pub release : Shared → Shared
release s =
    let left = (s.count + 4294967295) % 4294967296 in
    if left == 0 then record { count = left; is_alive = false } else record s { count = left }

-- Whether the pointer `i` owns the object.
abbrev pub owns : List Bool → ℕ → Bool
owns [] i = false
owns (b ∷ bs) zero = b
owns (b ∷ bs) (suc i) = owns bs i

-- A new pointer of `ref`.
unfoldable pub acquire : Bool → Pointers → Pointers
acquire succeeds p =
    let (owner, s) = ref succeeds p.shared in record { shared = s; owners = owner ∷ p.owners }

-- The destructor, and `release` where there is an owner.
unfoldable pub drop_pointer : ℕ → Pointers → Pointers
drop_pointer i p =
    if owns p.owners i
    then record { shared = release p.shared; owners = set p.owners i false }
    else p

-- A new pointer of the copy constructor.
unfoldable pub copy_pointer : ℕ → Pointers → Pointers
copy_pointer i p =
    if owns p.owners i
    then record { shared = (ref true p.shared).1; owners = true ∷ p.owners }
    else record p { owners = false ∷ p.owners }

-- A new pointer of the move constructor.
unfoldable pub move_pointer : ℕ → Pointers → Pointers
move_pointer i p = record p { owners = owns p.owners i ∷ set p.owners i false }

-- The move assignment of the pointer `j` to the pointer `i`.
unfoldable pub move_assign : ℕ → ℕ → Pointers → Pointers
unfolding drop_pointer
move_assign i j p =
    let q = drop_pointer i p in
    if ltb i (length p.owners)
    then record q { owners = set (set q.owners j false) i (owns q.owners j) }
    else p

pub data Step : Type 0 where
  acquires : Bool → Step
  drops copies moves : ℕ → Step
  assigns : ℕ → ℕ → Step

unfoldable pub step : Pointers → Step → Pointers
unfolding acquire drop_pointer copy_pointer move_pointer move_assign
step p (acquires succeeds) = acquire succeeds p
step p (drops i) = drop_pointer i p
step p (copies i) = copy_pointer i p
step p (moves i) = move_pointer i p
step p (assigns i j) = move_assign i j p

abbrev pub unused : Pointers
unused = record { shared = record { count = 0; is_alive = false }; owners = [] }

-- The state after a list of steps, the newest first.
unfoldable pub run : List Step → Pointers
unfolding step
run [] = unused
run (s ∷ ss) = step (run ss) s

abbrev pub ownership : Bool → ℕ
ownership true = 1
ownership false = 0

abbrev pub owners_count : List Bool → ℕ
owners_count [] = 0
owners_count (b ∷ bs) = ownership b + owners_count bs

-- The count is the number of owners, and the object is there exactly if that is not 0.
pub record Counted (p : Pointers) : Type 0 where
  pub count : p.shared.count ≡ owners_count p.owners
  pub alive : p.shared.is_alive ≡ ltb 0 p.shared.count

owners_count-set_null :
    (bs : List Bool) (i : ℕ)
    → owners_count (set bs i false) + ownership (owns bs i) ≡ owners_count bs
owners_count-set_null [] i = refl
owners_count-set_null (true ∷ bs) zero = omega arith
owners_count-set_null (false ∷ bs) zero = omega arith
owners_count-set_null (b ∷ bs) (suc i) = omega (arith, owners_count-set_null bs i)

owners_count-set :
    (bs : List Bool) (i : ℕ) (b : Bool)
    → i < length bs
    → owners_count (set bs i b) + ownership (owns bs i) ≡ owners_count bs + ownership b
owners_count-set [] i b h = elim h [ ]
owners_count-set (c ∷ bs) zero b h = omega arith
owners_count-set (c ∷ bs) (suc i) b h = omega (arith, owners_count-set bs i b (omega arith))

owners_count-length : (bs : List Bool) → owners_count bs ≤ length bs
owners_count-length [] = omega arith
owners_count-length (true ∷ bs) = omega (arith, owners_count-length bs)
owners_count-length (false ∷ bs) = omega (arith, owners_count-length bs)

owns-set_null : (bs : List Bool) (i : ℕ) → owns (set bs i false) i ≡ false
owns-set_null [] i = refl
owns-set_null (b ∷ bs) zero = refl
owns-set_null (b ∷ bs) (suc i) = owns-set_null bs i

owns-set_null_any : (bs : List Bool) (i j : ℕ) → owns bs i ≡ false → owns (set bs j false) i ≡ false
owns-set_null_any [] i j h = refl
owns-set_null_any (b ∷ bs) zero zero h = refl
owns-set_null_any (b ∷ bs) zero (suc j) h = h
owns-set_null_any (b ∷ bs) (suc i) zero h = h
owns-set_null_any (b ∷ bs) (suc i) (suc j) h = owns-set_null_any bs i j h

acquire-Counted :
    (b : Bool) (p : Pointers) → p.shared.count < 4294967295 → Counted p → Counted (acquire b p)
unfolding acquire ref
acquire-Counted true p h c = elim (Bool-cases (p.shared.count == 0)) [
  | inl e ↦ rw (acquire, ref, e) (record { count = ground (arith, c.count); alive = refl })
  | inr e ↦
      rw (acquire, ref, e)
        (record { count = ground (arith, c.count); alive = ground (arith, c.alive) })
]
acquire-Counted false p h c = elim (Bool-cases (p.shared.count == 0)) [
  | inl e ↦ rw (acquire, ref, e) (record { count = omega (arith, c.count); alive = c.alive })
  | inr e ↦
      rw (acquire, ref, e)
        (record { count = ground (arith, c.count); alive = ground (arith, c.alive) })
]

drop_pointer-Counted :
    (i : ℕ) (p : Pointers) → p.shared.count < 4294967296 → Counted p → Counted (drop_pointer i p)
unfolding drop_pointer release
drop_pointer-Counted i p h c =
    let fewer = owners_count-set_null p.owners i in
    elim (Bool-cases (owns p.owners i)) [
      | inr e ↦ rw (drop_pointer, e) c
      | inl e ↦
          let one : ownership (owns p.owners i) ≡ 1 = ap ownership e in
          let left : (p.shared.count + 4294967295) % 4294967296
              ≡ owners_count (set p.owners i false) =
            omega (arith, c.count) in
          elim (Bool-cases ((p.shared.count + 4294967295) % 4294967296 == 0)) [
            | inl f ↦
                rw (drop_pointer, e, release, f) (record { count = left; alive = ground arith })
            | inr f ↦
                rw (drop_pointer, e, release, f)
                  (record { count = left; alive = ground (arith, c.alive) })
          ]
    ]

copy_pointer-Counted :
    (i : ℕ) (p : Pointers) → p.shared.count < 4294967295 → Counted p → Counted (copy_pointer i p)
unfolding copy_pointer ref
copy_pointer-Counted i p h c = elim (Bool-cases (owns p.owners i)) [
  | inr e ↦ rw (copy_pointer, e) (record { count = omega (arith, c.count); alive = c.alive })
  | inl e ↦
      let one : ownership (owns p.owners i) ≡ 1 = ap ownership e in
      let owned : 1 ≤ p.shared.count = omega (arith, c.count, owners_count-set_null p.owners i) in
      let more : (p.shared.count == 0) ≡ false = ground arith in
      rw (copy_pointer, e, ref, more)
        (record { count = ground (arith, c.count); alive = ground (arith, c.alive) })
]

move_pointer-Counted : (i : ℕ) (p : Pointers) → Counted p → Counted (move_pointer i p)
unfolding move_pointer
move_pointer-Counted i p c = record {
  count = omega (arith, c.count, owners_count-set_null p.owners i);
  alive = c.alive;
}

drop_pointer-length : (i : ℕ) (p : Pointers) → length (drop_pointer i p).owners ≡ length p.owners
unfolding drop_pointer
drop_pointer-length i p = elim (Bool-cases (owns p.owners i)) [
  | inl e ↦ rw (drop_pointer, e) (length-set p.owners i false)
  | inr e ↦ rw (drop_pointer, e) refl
]

drop_pointer-owns : (i : ℕ) (p : Pointers) → owns (drop_pointer i p).owners i ≡ false
unfolding drop_pointer
drop_pointer-owns i p = elim (Bool-cases (owns p.owners i)) [
  | inl e ↦ rw (drop_pointer, e) (owns-set_null p.owners i)
  | inr e ↦ rw (drop_pointer, e) e
]

move_assign-Counted :
    (i j : ℕ) (p : Pointers) → p.shared.count < 4294967296 → Counted p → Counted (move_assign i j p)
unfolding move_assign
move_assign-Counted i j p h c = elim (Bool-cases (ltb i (length p.owners))) [
  | inr e ↦ rw (move_assign, e) c
  | inl e ↦
      let q = drop_pointer i p in
      let dropped = drop_pointer-Counted i p h c in
      let given = owners_count-set_null q.owners j in
      let free : ownership (owns (set q.owners j false) i) ≡ 0 =
        ap ownership (owns-set_null_any q.owners i j (drop_pointer-owns i p)) in
      let inside : i < length (set q.owners j false) =
        ground (arith, length-set q.owners j false, drop_pointer-length i p) in
      let taken = owners_count-set (set q.owners j false) i (owns q.owners j) inside in
      rw (move_assign, e)
        (record { count = omega (arith, dropped.count, given, free, taken); alive = dropped.alive })
]

step-Counted :
    (p : Pointers) (s : Step) → p.shared.count < 4294967295 → Counted p → Counted (step p s)
unfolding step
step-Counted p (acquires b) h c = acquire-Counted b p h c
step-Counted p (drops i) h c = drop_pointer-Counted i p (omega arith) c
step-Counted p (copies i) h c = copy_pointer-Counted i p h c
step-Counted p (moves i) h c = move_pointer-Counted i p c
step-Counted p (assigns i j) h c = move_assign-Counted i j p (omega arith) c

-- A step makes one pointer at most.
step-length : (p : Pointers) (s : Step) → length (step p s).owners ≤ length p.owners + 1
unfolding step acquire move_pointer
step-length p (acquires b) = omega arith
step-length p (drops i) = omega (arith, drop_pointer-length i p)
step-length p (copies i) = copied i p
  where
    copied : (i : ℕ) (p : Pointers) → length (copy_pointer i p).owners ≤ length p.owners + 1
    copied i p = elim (Bool-cases (owns p.owners i)) [
      | inl e ↦ rw (copy_pointer, e) (omega arith)
      | inr e ↦ rw (copy_pointer, e) (omega arith)
    ]
step-length p (moves i) = omega (arith, length-set p.owners i false)
step-length p (assigns i j) = elim (Bool-cases (ltb i (length p.owners))) [
  | inl e ↦
      let q = drop_pointer i p in
      rw (move_assign, e)
        (omega (
          arith,
          drop_pointer-length i p,
          length-set q.owners j false,
          length-set (set q.owners j false) i (owns q.owners j),
        ))
  | inr e ↦ rw (move_assign, e) (omega arith)
]

run-length : (ss : List Step) → length (run ss).owners ≤ length ss
unfolding run
run-length [] = omega arith
run-length (s ∷ ss) = omega (arith, step-length (run ss) s, run-length ss)

-- After fewer than 2 ^ 32 acquisitions, copies, moves, assignments and releases of pointers, whether
-- construction succeeds or not, the count is the number of pointers that own the object, and the object
-- is there exactly if that number is not 0.
pub run-Counted : (ss : List Step) → length ss < 4294967296 → Counted (run ss)
unfolding run
run-Counted [] h = record { count = refl; alive = refl }
run-Counted (s ∷ ss) h =
    let before = run-Counted ss (omega arith) in
    step-Counted (run ss) s
      (omega (arith, before.count, run-length ss, owners_count-length (run ss).owners)) before
