-- ===== src/Stream.antt =====
-- stream.cpp: how an encoded video frame becomes the bytes of packets, before error correction.
pub mod Insert
pub mod Replace
pub mod Fec
pub mod Parity
pub mod Shards
pub mod Blocks
pub mod Split
pub mod Frame
pub mod Sequence
pub mod Packets
mod Tests
use solari.Base.{
  ℕ, zero, suc, ◌+◌, ◌-◌, ◌*◌, ◌/◌, ◌%◌, List, [], ◌∷◌, ◌++◌, Option, none, some, Bool, true, false,
  ltb, ◌==◌, if◌then◌else◌, length, take, drop, replicate,
}
use solari.Base.Text.{has_prefix}

-- The sizes of moonlight-common-c's `NV_VIDEO_PACKET`, of `video_packet_raw_t` around it, and its
-- `MAX_RTP_HEADER_SIZE`.
pub record Sizes : Type 0 where
  pub nv_video_packet : ℕ
  pub video_packet_raw : ℕ
  pub max_rtp_header : ℕ

-- `std::search`: the bytes before the first place where `old` stands, and those from there on.
unfoldable pub search_bytes : List ℕ → List ℕ → Option (List ℕ × List ℕ)
unfolding has_prefix
search_bytes old [] = if has_prefix old [] then some ([], []) else none
search_bytes old (c ∷ t) =
    let later : Option (List ℕ × List ℕ) = elim (search_bytes old t) [
      | none ↦ none
      | some (before, rest) ↦ some (c ∷ before, rest)
    ] in
    if has_prefix old (c ∷ t) then some ([], c ∷ t) else later

unfoldable pub replace : List ℕ → List ℕ → List ℕ → List ℕ
replace original old new = elim (search_bytes old original) [
  | none ↦ original
  | some (before, rest) ↦
      if length rest == 0 then before else before ++ (new ++ drop (length old) rest)
]

-- One round's copy of `n` bytes: the bytes, and the rest of the buffer that is being read. `second` is the
-- second buffer.
unfoldable pub take_slice : ℕ → List ℕ → List ℕ → List ℕ × List ℕ
take_slice n second current =
    let more = n - length current in
    if ltb (length current) n
    then (current ++ take more second, drop more second)
    else (take n current, drop n current)

-- The rounds left of the loop; the round `x` is the last one if none is left after it.
unfoldable pub insert_rounds : ℕ → ℕ → ℕ → List ℕ → ℕ → ℕ → List ℕ → List ℕ
unfolding take_slice
insert_rounds insert_size slice_size data_size second zero x current = []
insert_rounds insert_size slice_size data_size second (suc left) x current =
    let n = if left == 0 then data_size - x * slice_size else slice_size in
    let (slice, next) = take_slice n second current in
    replicate insert_size 0
    ++ (slice ++ insert_rounds insert_size slice_size data_size second left (x + 1) next)

-- The number of slices of `slice_size` bytes at most.
unfoldable pub elements : ℕ → ℕ → ℕ
elements data_size slice_size =
    data_size / slice_size + (if data_size % slice_size == 0 then 0 else 1)

unfoldable pub concat_and_insert : ℕ → ℕ → List ℕ → List ℕ → List ℕ
concat_and_insert insert_size slice_size first second =
    let data_size = length first + length second in
    insert_rounds insert_size slice_size data_size second (elements data_size slice_size) 0 first

-- `frameHeader.lastPayloadLen`, of 16 bits; the frame header has 8 bytes.
unfoldable pub last_payload_len : Sizes → ℕ → ℕ → ℕ
last_payload_len sizes packetsize payload_size =
    let room = packetsize - sizes.nv_video_packet in
    let last = (payload_size + 8) % room % 65536 in if last == 0 then room % 65536 else last
