-- ===== src/Stream/Sequence.antt =====
-- stream.cpp: the numbers in the packets' headers, and the batches in which shards are sent.
use Prim.Native.Nat.{bit_or, min}
use solari.Base.{
  ℕ, zero, suc, ◌+◌, ◌-◌, ◌*◌, ◌/◌, ◌%◌, ◌^◌, List, [], ◌∷◌, ◌++◌, leb, ◌==◌, if◌then◌else◌, ◌||◌,
}

-- `packet.multiFecBlocks`, of 8 bits.
unfoldable pub multi_fec_blocks : ℕ → ℕ → ℕ
multi_fec_blocks block_index needed = bit_or (block_index * 2 ^ 4) ((needed - 1) * 2 ^ 6) % 2 ^ 8

-- `packet.fecInfo` of shard `x`, of 32 bits.
unfoldable pub fec_info : ℕ → ℕ → ℕ → ℕ
fec_info data_shards percentage x =
    bit_or (bit_or (x * 2 ^ 12) (data_shards * 2 ^ 22)) (percentage * 2 ^ 4) % 2 ^ 32

-- `rtp.sequenceNumber` of shard `x`, of 16 bits.
unfoldable pub sequence_number : ℕ → ℕ → ℕ
sequence_number lowseq x = (lowseq + x) % 2 ^ 16

-- The sequence numbers of the shards from `x` on.
unfoldable pub block_numbers : ℕ → ℕ → ℕ → List ℕ
block_numbers lowseq x zero = []
block_numbers lowseq x (suc left) = sequence_number lowseq x ∷ block_numbers lowseq (x + 1) left

-- The sequence numbers of all blocks of so many shards each, and `lowseq` after them.
unfoldable pub frame_numbers : ℕ → List ℕ → List ℕ × ℕ
frame_numbers lowseq [] = ([], lowseq)
frame_numbers lowseq (size ∷ sizes) =
    let (others, last) = frame_numbers (lowseq + size) sizes in
    (block_numbers lowseq 0 size ++ others, last)

unfoldable pub send_batch_size : ℕ → ℕ
send_batch_size blocksize = min 64 (64 * 1024 / blocksize)

-- The offset and the count of each batch: shard `x` is next, `left` are left with it.
unfoldable pub batches : ℕ → ℕ → ℕ → ℕ → List (ℕ × ℕ)
batches limit next x zero = []
batches limit next x (suc left) =
    let sent = (next, x - next + 1) ∷ batches limit (x + 1) (x + 1) left in
    let waiting = batches limit next (x + 1) left in
    if leb limit (x - next + 1) || left == 0 then sent else waiting
