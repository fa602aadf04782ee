-- ===== src/Stream/Packets.antt =====
-- stream.cpp: the fields of a packet's header can be read back, the shards of a frame are numbered one after the
-- other, and the batches hold each shard once.
use Prim.Native.Nat.{bit_or, max}
use solari.Base.{
  ℕ, zero, suc, ◌+◌, ◌-◌, ◌*◌, ◌/◌, ◌%◌, ◌^◌, ◌≤◌, ◌<◌, ◌≡◌, refl, sym, ap, ◌∙◌, List, [], ◌∷◌,
  ◌++◌, leb, ◌==◌, ◌||◌, Bool, false, inl, inr, arith, Bool-cases,
}
use native.Mathlib.Nat.{mul-le-mul_right, div-mul-le_self}
use solari.Base.Bits.{bit_or-low, bit_or-high}
use solari.Stream.Sequence.{
  multi_fec_blocks, fec_info, sequence_number, block_numbers, frame_numbers, send_batch_size,
  batches,
}

fec_info-sum :
    (data_shards percentage x : ℕ)
    → x < 1024
    → data_shards < 1024
    → percentage < 256
    → fec_info data_shards percentage x ≡ data_shards * 4194304 + x * 4096 + percentage * 16
unfolding fec_info
fec_info-sum d p x hx hd hp =
    let top = bit_or-high 22 d (x * 2 ^ 12) (omega arith) in
    let all = bit_or-low 12 (d * 2 ^ 10 + x) (p * 2 ^ 4) (omega arith) in
    let same : (d * 2 ^ 10 + x) * 2 ^ 12 ≡ d * 2 ^ 22 + x * 2 ^ 12 = omega arith in
    ap (λ n. bit_or n (p * 2 ^ 4) % 2 ^ 32) (top ∙ sym same)
    ∙ ap (λ n. n % 2 ^ 32) all
    ∙ omega arith

-- What a client reads from a packet's header is what was put there: for fewer than 1024 data shards, the index
-- of a shard below 1024, and a percentage of 8 bits, `fecInfo` has all three; and for a block of at most four,
-- `multiFecBlocks` has the index of the block and the index of the last one.
pub fec_info-fields :
    (data_shards percentage x block_index needed : ℕ)
    → data_shards < 1024
    → percentage < 256
    → x < 1024
    → block_index < 4
    → 0 < needed
    → needed ≤ 4
    → (fec_info data_shards percentage x / 2 ^ 22 ≡ data_shards)
      × (fec_info data_shards percentage x / 2 ^ 12 % 2 ^ 10 ≡ x)
      × (fec_info data_shards percentage x / 2 ^ 4 % 2 ^ 8 ≡ percentage)
      × (multi_fec_blocks block_index needed / 2 ^ 4 % 2 ^ 2 ≡ block_index)
      × (multi_fec_blocks block_index needed / 2 ^ 6 ≡ needed - 1)
unfolding multi_fec_blocks
fec_info-fields d p x b n hd hp hx hb some_block few =
    let info = fec_info-sum d p x hx hd hp in
    let multi : multi_fec_blocks b n ≡ (n - 1) * 64 + b * 16 =
      ap (λ m. m % 2 ^ 8) (bit_or-high 6 (n - 1) (b * 2 ^ 4) (omega arith)) ∙ omega arith in
    (
      omega (arith, info),
      omega (arith, info),
      omega (arith, info),
      omega (arith, multi),
      omega (arith, multi),
    )

-- So many numbers of 16 bits from `low` on, each one more than the one before it.
abbrev pub consecutive : ℕ → ℕ → List ℕ
consecutive low zero = []
consecutive low (suc n) = low % 65536 ∷ consecutive (low + 1) n

abbrev pub total : List ℕ → ℕ
total [] = 0
total (n ∷ ns) = n + total ns

consecutive_add :
    (low a b : ℕ) → consecutive low (a + b) ≡ consecutive low a ++ consecutive (low + a) b
consecutive_add low zero b =
    let none : 0 + b ≡ b = omega arith in
    let here : low + 0 ≡ low = omega arith in
    ap (consecutive low) none ∙ ap (λ l. consecutive l b) (sym here)
consecutive_add low (suc a) b =
    let next : suc a + b ≡ suc (a + b) = omega arith in
    let there : low + suc a ≡ low + 1 + a = omega arith in
    ap (consecutive low) next
    ∙ ap (λ t. low % 65536 ∷ t)
        (consecutive_add (low + 1) a b
          ∙ ap (λ l. consecutive (low + 1) a ++ consecutive l b) (sym there))

block_numbers-consecutive : (lowseq x n : ℕ) → block_numbers lowseq x n ≡ consecutive (lowseq + x) n
unfolding block_numbers sequence_number
block_numbers-consecutive lowseq x zero = refl
block_numbers-consecutive lowseq x (suc n) =
    let next : lowseq + (x + 1) ≡ lowseq + x + 1 = omega arith in
    ap (λ t. (lowseq + x) % 65536 ∷ t)
      (block_numbers-consecutive lowseq (x + 1) n ∙ ap (λ l. consecutive l n) next)

-- Whatever blocks a frame is split into, its shards are numbered one after the other, modulo 2^16, from
-- `lowseq` on, and the next frame goes on where it ends.
pub frame_numbers-consecutive :
    (lowseq : ℕ) (sizes : List ℕ)
    → frame_numbers lowseq sizes ≡ (consecutive lowseq (total sizes), lowseq + total sizes)
unfolding frame_numbers
frame_numbers-consecutive lowseq [] =
    let here : lowseq ≡ lowseq + 0 = omega arith in ap (λ l. ([], l)) here
frame_numbers-consecutive lowseq (size ∷ sizes) =
    let rest = frame_numbers-consecutive (lowseq + size) sizes in
    let start : lowseq + 0 ≡ lowseq = omega arith in
    let end : lowseq + size + total sizes ≡ lowseq + (size + total sizes) = omega arith in
    let first = block_numbers-consecutive lowseq 0 size ∙ ap (λ l. consecutive l size) start in
    ap (λ r. (block_numbers lowseq 0 size ++ r.0, r.1)) rest
    ∙ ap (λ t. (t ++ consecutive (lowseq + size) (total sizes), lowseq + size + total sizes)) first
    ∙ ap (λ t. (t, lowseq + size + total sizes)) (sym (consecutive_add lowseq size (total sizes)))
    ∙ ap (λ l. (consecutive lowseq (size + total sizes), l)) end

-- The shards from `offset` on, so many.
abbrev pub shards_from : ℕ → ℕ → List ℕ
shards_from offset zero = []
shards_from offset (suc n) = offset ∷ shards_from (offset + 1) n

abbrev pub all_shards : List (ℕ × ℕ) → List ℕ
all_shards [] = []
all_shards ((offset, count) ∷ more) = shards_from offset count ++ all_shards more

-- No batch is empty or has more than `limit` shards, but for one.
abbrev pub Within : ℕ → List (ℕ × ℕ) → Type 0
Within limit [] = Unit
Within limit ((offset, count) ∷ more) = (0 < count) × (count ≤ max 1 limit) × Within limit more

shards_from_add : (o a b : ℕ) → shards_from o (a + b) ≡ shards_from o a ++ shards_from (o + a) b
shards_from_add o zero b =
    let none : 0 + b ≡ b = omega arith in
    let here : o + 0 ≡ o = omega arith in
    ap (shards_from o) none ∙ ap (λ l. shards_from l b) (sym here)
shards_from_add o (suc a) b =
    let next : suc a + b ≡ suc (a + b) = omega arith in
    let there : o + suc a ≡ o + 1 + a = omega arith in
    ap (shards_from o) next
    ∙ ap (λ t. o ∷ t)
        (shards_from_add (o + 1) a b
          ∙ ap (λ l. shards_from (o + 1) a ++ shards_from l b) (sym there))

batches-tile :
    (limit next x left : ℕ)
    → next ≤ x
    → x - next < max 1 limit
    → (left ≡ 0 → next ≡ x)
    → (all_shards (batches limit next x left) ≡ shards_from next (x - next + left))
      × Within limit (batches limit next x left)
unfolding batches
batches-tile limit next x zero h1 h2 h3 =
    let none : 0 ≡ x - next + 0 = omega (arith, h3 refl) in (ap (shards_from next) none, _)
batches-tile limit next x (suc left) h1 h2 h3 =
    let count = x - next + 1 in
    let size : x - next + suc left ≡ count + left = omega arith in
    elim (Bool-cases (leb limit count || left == 0)) [
      | inl e ↦
          let none : x + 1 - (x + 1) + left ≡ left = omega arith in
          let there : next + count ≡ x + 1 = omega arith in
          let (rest, within) =
            batches-tile limit (x + 1) (x + 1) left (omega arith) (omega arith) (λ z. refl) in
          (
            rw (batches, e)
                (ap (λ t. shards_from next count ++ t)
                    (rest
                      ∙ ap (shards_from (x + 1)) none
                      ∙ ap (λ o. shards_from o left) (sym there))
                  ∙ sym (shards_from_add next count left)
                  ∙ ap (shards_from next) (sym size)),
            rw (batches, e) (omega arith, omega arith, within),
          )
      | inr e ↦
          let (room, later) = both-false (leb limit count) (left == 0) e in
          let short : count < limit = ground arith in
          let (rest, within) =
            batches-tile limit next (x + 1) left (omega arith) (omega arith)
              (λ z. absurd (ground arith)) in
          let same : x + 1 - next + left ≡ x - next + suc left = omega arith in
          (rw (batches, e) (rest ∙ ap (shards_from next) same), rw (batches, e) within)
    ]
  where
    both-false : (p q : Bool) → (p || q) ≡ false → (p ≡ false) × (q ≡ false)
    both-false p q h = ground arith

-- Each of a block's shards is sent once, in their order: the batches hold the shards from the first to the last,
-- none is empty, and none has more than 64, nor more than a batch of 64 KiB has room for, but for a batch of
-- one shard.
pub batches-shards :
    (blocksize n : ℕ)
    → (all_shards (batches (send_batch_size blocksize) 0 0 n) ≡ shards_from 0 n)
      × Within (send_batch_size blocksize) (batches (send_batch_size blocksize) 0 0 n)
      × (send_batch_size blocksize ≤ 64)
      × (send_batch_size blocksize * blocksize ≤ 65536)
unfolding send_batch_size
batches-shards blocksize n =
    let limit = send_batch_size blocksize in
    let none : 0 - 0 + n ≡ n = omega arith in
    let (tiled, within) = batches-tile limit 0 0 n (omega arith) (omega arith) (λ z. refl) in
    let least : limit ≤ 65536 / blocksize = omega arith in
    (
      tiled ∙ ap (shards_from 0) none,
      within,
      omega arith,
      omega (arith, mul-le-mul_right blocksize least, div-mul-le_self 65536 blocksize),
    )
