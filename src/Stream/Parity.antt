-- ===== src/Stream/Parity.antt =====
-- stream.cpp: the number of parity shards that `fec::encode` adds, and what is announced of it.
use solari.Base.{
  ℕ, ◌+◌, ◌*◌, ◌/◌, ◌%◌, ◌≤◌, ◌<◌, ◌≡◌, refl, sym, ap, ◌∙◌, subst, List, [], ◌∷◌, ◌++◌, some, true,
  false, inl, inr, arith, Bool-cases, Option-cases, is_some, ltb, ◌==◌, if◌then◌else◌, length, take,
}
use native.Mathlib.Nat.{
  div-add-mod', mod-lt, le-div_iff_mul-le, div-le_self, le-mul_of_pos_right, mul_comm,
}
use solari.Stream.{elements}
use solari.Stream.Fec.{
  ReedSolomon, FecT, point_into, padded, parity_shards, recovery, assemble, encode,
}

record Counts (n percentage : ℕ) (counts : ℕ × ℕ) : Type 0 where
  some_parity : 0 < counts.0
  within : n + counts.0 ≤ 255
  announced : (n * counts.1 + 99) / 100 ≡ counts.0
  not_less : percentage ≤ counts.1
  byte : counts.1 ≤ 255

parity_shards-Counts :
    (n percentage least : ℕ)
    → 0 < n
    → 0 < percentage
    → percentage ≤ 255
    → least ≤ 2
    → n * (100 + percentage) ≤ 25500
    → Counts n percentage (parity_shards n percentage least)
unfolding parity_shards
parity_shards-Counts n percentage least some_n some_percentage byte small room =
    let m = n * percentage in
    let spread : n * (100 + percentage) ≡ 100 * n + m = grind arith in
    let ge_n : n ≤ m = le-mul_of_pos_right n some_percentage in
    let ge_f : percentage ≤ m =
      subst (λ k. percentage ≤ k) (mul_comm percentage n) (le-mul_of_pos_right percentage some_n) in
    let on : (percentage == 0) ≡ false = ground arith in
    elim (Bool-cases (ltb ((m + 99) / 100) least)) [
      | inl e ↦
          let two : least ≡ 2 = ground arith in
          let q = 100 * least / n in
          let parts = div-add-mod' (100 * least) n in
          let under = mod-lt (100 * least) {m = n} some_n in
          let few : m ≤ 100 = ground arith in
          let counts : parity_shards n percentage least ≡ (least, q) =
            rw (parity_shards, e, on) refl in
          let product : n * q ≡ q * n = mul_comm n q in
          subst (Counts n percentage) (sym counts) record {
            some_parity = omega arith;
            within = omega (arith, spread);
            announced = omega (arith, product, parts, under, two, few, ge_n);
            not_less = (le-div_iff_mul-le some_n).1 (omega (arith, mul_comm percentage n));
            byte = omega (arith, div-le_self (100 * least) n);
          }
      | inr e ↦
          let counts : parity_shards n percentage least ≡ ((m + 99) / 100, percentage) =
            rw (parity_shards, e) refl in
          subst (Counts n percentage) (sym counts) record {
            some_parity = omega arith;
            within = omega (arith, spread);
            announced = refl;
            not_less = omega arith;
            byte = byte;
          }
    ]

-- What the Reed-Solomon library documents: there is an encoder for up to 255 shards.
abbrev pub Able : ReedSolomon → Type 0
Able rs =
    (n parity : ℕ) → 0 < n → 0 < parity → n + parity ≤ 255 → is_some (rs.encoder n parity) ≡ true

recovery-some :
    (rs : ReedSolomon) (n parity percentage : ℕ) (originals : List (List ℕ))
    → 0 < percentage
    → is_some (rs.encoder n parity) ≡ true
    → (added : List (List ℕ)) × (recovery rs n parity percentage originals ≡ some added)
unfolding recovery
recovery-some rs n parity percentage originals on h =
    let busy : (percentage == 0) ≡ false = ground arith in
    elim (Option-cases (rs.encoder n parity)) [
      | inl e ↦ let never = sym (ap is_some e) ∙ h in absurd (cc)
      | inr (code, e) ↦ (code originals, rw (recovery, busy, e) refl)
    ]

-- What is announced of a block's shards describes them.
pub record Announced (percentage data_shards : ℕ) (f : FecT) : Type 0 where
  counted : f.data_shards ≡ data_shards
  parity : f.nr_shards ≡ f.data_shards + (f.data_shards * f.percentage + 99) / 100
  within : f.nr_shards ≤ 255
  not_less : percentage ≤ f.percentage
  byte : f.percentage ≤ 255

-- Error correction does not fail on a block of a frame: for blocks that are not empty, with a percentage from
-- 1 to 255, at most two parity shards required, no more data shards than such a percentage leaves room for, and a
-- Reed-Solomon library that can code up to 255 shards, the shards are made. The percentage that is announced
-- is not below the configured one, fits 8 bits, and gives back the number of parity shards; there are at most
-- 255 shards.
pub encode-fits :
    (rs : ReedSolomon) (payload : List ℕ) (blocksize percentage least prefixsize : ℕ)
    → Able rs
    → 0 < elements (length payload) blocksize
    → 0 < percentage
    → percentage ≤ 255
    → least ≤ 2
    → elements (length payload) blocksize * (100 + percentage) ≤ 25500
    → (f : FecT) × (encode rs payload blocksize percentage least prefixsize ≡ some f)
      × Announced percentage (elements (length payload) blocksize) f
unfolding encode assemble
encode-fits rs payload s percentage least prefixsize able some_n some_percentage byte small room =
    let n = elements (length payload) s in
    let counts = parity_shards n percentage least in
    let c = parity_shards-Counts n percentage least some_n some_percentage byte small room in
    let (whole, next) = point_into (length payload / s) s payload in
    let last = if length payload % s == 0 then [] else padded s next ∷ [] in
    let (added, e) =
      recovery-some rs n counts.0 counts.1 (whole ++ last) (omega (arith, c.not_less))
        (able n counts.0 some_n c.some_parity c.within) in
    let aligned = take (length payload / s * s) payload in
    (
      assemble n s counts prefixsize aligned whole last added,
      rw (encode, e) refl,
      record {
        counted = refl;
        parity = ap (λ p. n + p) (sym c.announced);
        within = c.within;
        not_less = c.not_less;
        byte = c.byte;
      },
    )

parity_shards-zero : (n least : ℕ) → parity_shards n 0 least ≡ (0, 0)
unfolding parity_shards
parity_shards-zero n least =
    let none : (n * 0 + 99) / 100 ≡ 0 = omega arith in
    elim (Bool-cases (ltb ((n * 0 + 99) / 100) least)) [
      | inl e ↦ rw (parity_shards, e) (ap (λ k. (k, 0)) none)
      | inr e ↦ rw (parity_shards, e) (ap (λ k. (k, 0)) none)
    ]

-- Without error correction there is nothing that can fail.
pub encode-unprotected :
    (rs : ReedSolomon) (payload : List ℕ) (blocksize least prefixsize : ℕ)
    → (f : FecT) × (encode rs payload blocksize 0 least prefixsize ≡ some f)
      × (f.nr_shards ≡ f.data_shards)
unfolding encode assemble recovery
encode-unprotected rs payload s least prefixsize =
    let n = elements (length payload) s in
    let counts = parity_shards-zero n least in
    let (whole, next) = point_into (length payload / s) s payload in
    let last = if length payload % s == 0 then [] else padded s next ∷ [] in
    let aligned = take (length payload / s * s) payload in
    (
      assemble n s (0, 0) prefixsize aligned whole last [],
      rw (encode, recovery, counts)
          (ap (λ c. some (assemble n s c prefixsize aligned whole last [])) counts),
      omega arith,
    )
