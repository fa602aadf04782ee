-- ===== src/Stream/Fec.antt =====
-- stream.cpp: `fec::encode` cuts a block of a frame into shards and adds the parity shards.
use solari.Base.{
  ℕ, zero, suc, ◌+◌, ◌-◌, ◌*◌, ◌/◌, ◌%◌, List, [], ◌∷◌, ◌++◌, Option, none, some, not, ◌&&◌, ltb,
  ◌==◌, if◌then◌else◌, length, take, drop, replicate, flatten,
}
use solari.Stream.{elements}

-- The Reed-Solomon library: for so many data and parity shards, either no encoder can be made, or one that
-- computes the parity shards from the data shards.
pub record ReedSolomon : Type 0 where
  pub encoder : ℕ → ℕ → Option (List (List ℕ) → List (List ℕ))

-- `shards_p` holds the bytes that its pointers point to, `headers` is of `nr_shards * prefixsize` bytes.
pub record FecT : Type 0 where
  pub data_shards : ℕ
  pub nr_shards : ℕ
  pub percentage : ℕ
  pub blocksize : ℕ
  pub prefixsize : ℕ
  pub shards : List ℕ
  pub shards_p : List (List ℕ)
  pub payload_buffers : List (List ℕ)

-- The shards that lie in the payload itself, and the bytes after them.
unfoldable pub point_into : ℕ → ℕ → List ℕ → List (List ℕ) × List ℕ
point_into zero blocksize next = ([], next)
point_into (suc n) blocksize next =
    let (others, rest) = point_into n blocksize (drop blocksize next) in
    (take blocksize next ∷ others, rest)

-- The last data shard, filled up with zeros.
unfoldable pub padded : ℕ → List ℕ → List ℕ
padded blocksize next = take blocksize next ++ replicate (blocksize - length next) 0

-- The number of parity shards, and the percentage that is announced for them.
unfoldable pub parity_shards : ℕ → ℕ → ℕ → ℕ × ℕ
parity_shards data_shards fecpercentage minparityshards =
    let parity = (data_shards * fecpercentage + 99) / 100 in
    if ltb parity minparityshards && not (fecpercentage == 0)
    then (minparityshards, 100 * minparityshards / data_shards)
    else (parity, fecpercentage)

-- The parity shards; without an encoder, the program would go on with a null pointer.
unfoldable pub recovery : ReedSolomon → ℕ → ℕ → ℕ → List (List ℕ) → Option (List (List ℕ))
recovery rs data_shards parity percentage originals =
    if percentage == 0
    then some []
    else elim (rs.encoder data_shards parity) [ none ↦ none | some code ↦ some (code originals) ]

-- `last` is the data shard that is not in the payload, if there is one; `added` are the parity shards.
unfoldable pub assemble :
    ℕ → ℕ → ℕ × ℕ → ℕ → List ℕ → List (List ℕ) → List (List ℕ) → List (List ℕ) → FecT
assemble data_shards blocksize (parity, percentage) prefixsize aligned whole last added = record {
  data_shards = data_shards;
  nr_shards = data_shards + parity;
  percentage = percentage;
  blocksize = blocksize;
  prefixsize = prefixsize;
  shards = flatten (last ++ added);
  shards_p = whole ++ (last ++ added);
  payload_buffers = aligned ∷ (flatten (last ++ added) ∷ []);
}

unfoldable pub encode : ReedSolomon → List ℕ → ℕ → ℕ → ℕ → ℕ → Option FecT
encode rs payload blocksize fecpercentage minparityshards prefixsize =
    let payload_size = length payload in
    let aligned_data_shards = payload_size / blocksize in
    let data_shards = elements payload_size blocksize in
    let counts = parity_shards data_shards fecpercentage minparityshards in
    let (whole, next) = point_into aligned_data_shards blocksize payload in
    let aligned = take (aligned_data_shards * blocksize) payload in
    let last = if payload_size % blocksize == 0 then [] else padded blocksize next ∷ [] in
    elim (recovery rs data_shards counts.0 counts.1 (whole ++ last)) [
      | none ↦ none
      | some added ↦
          some (assemble data_shards blocksize counts prefixsize aligned whole last added)
    ]
