-- ===== src/Stream/Blocks.antt =====
-- stream.cpp: `videoBroadcastThread` splits a frame into at most four blocks that are coded apart.
use solari.Base.{
  ℕ, zero, suc, ◌+◌, ◌-◌, ◌*◌, ◌/◌, List, [], ◌∷◌, Option, none, some, ltb, ◌==◌, if◌then◌else◌,
  ◌>>=◌, length, take, drop,
}
use solari.Stream.Fec.{ReedSolomon, FecT, encode}

abbrev pub max_fec_blocks : ℕ
max_fec_blocks = 4

-- `DATA_SHARDS_MAX` of the Reed-Solomon library is 255.
unfoldable pub max_data_shards : ℕ → ℕ
max_data_shards fec_percentage = 255 * 100 / (100 + fec_percentage)

-- The percentage for the frame, and the number of its blocks.
unfoldable pub fec_blocks_needed : ℕ → ℕ → ℕ → ℕ × ℕ
fec_blocks_needed payload_size blocksize fec_percentage =
    let max_data = max_data_shards fec_percentage * blocksize in
    let needed = (payload_size + (max_data - 1)) / max_data in
    if ltb max_fec_blocks needed then (0, max_fec_blocks) else (fec_percentage, needed)

unfoldable pub aligned_size : ℕ → ℕ → ℕ → ℕ
aligned_size payload_size needed blocksize =
    let unaligned_size = payload_size / needed in
    (unaligned_size + (blocksize - 1)) / blocksize * blocksize

-- `std::string_view::substr` from `pos` on; it throws past the end.
unfoldable pub substr_from : List ℕ → ℕ → Option (List ℕ)
substr_from payload pos = if ltb (length payload) pos then none else some (drop pos payload)

-- The blocks from number `x` on, of which `left` are left.
unfoldable pub split_blocks : List ℕ → ℕ → ℕ → ℕ → Option (List (List ℕ))
split_blocks payload aligned x zero = some []
split_blocks payload aligned x (suc left) =
    let others = split_blocks payload aligned (x + 1) left in
    substr_from payload (x * aligned) >>= (λ rest.
      others >>= (λ blocks. some ((if left == 0 then rest else take aligned rest) ∷ blocks)))

unfoldable pub encode_blocks : ReedSolomon → ℕ → ℕ → ℕ → ℕ → List (List ℕ) → Option (List FecT)
encode_blocks rs blocksize fec_percentage least prefixsize [] = some []
encode_blocks rs blocksize fec_percentage least prefixsize (block ∷ blocks) =
    let others = encode_blocks rs blocksize fec_percentage least prefixsize blocks in
    encode rs block blocksize fec_percentage least prefixsize
    >>= (λ shards. others >>= (λ rest. some (shards ∷ rest)))

-- What is sent of a frame's payload, in which the headers have their space.
unfoldable pub encode_frame : ReedSolomon → List ℕ → ℕ → ℕ → ℕ → ℕ → Option (List FecT)
encode_frame rs payload blocksize fec_percentage least prefixsize =
    let plan = fec_blocks_needed (length payload) blocksize fec_percentage in
    split_blocks payload (aligned_size (length payload) plan.1 blocksize) 0 plan.1
    >>= (λ blocks. encode_blocks rs blocksize plan.0 least prefixsize blocks)
