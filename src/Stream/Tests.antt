-- ===== src/Stream/Tests.antt =====
-- stream.cpp: the theorems on packets at concrete frames.
use solari.Base.{
  ℕ, ◌+◌, ◌*◌, ◌/◌, ◌%◌, ◌^◌, ◌≤◌, ◌≡◌, refl, List, [], ◌∷◌, ◌++◌, none, some, true, arith, leb,
  if◌then◌else◌, take, replicate, flatten,
}
use solari.Stream.{elements, concat_and_insert}
use solari.Stream.Insert.{remove_inserted, remove_inserted-concat_and_insert}
use solari.Stream.Fec.{
  ReedSolomon, FecT, point_into, padded, parity_shards, recovery, assemble, encode,
}
use solari.Stream.Shards.{carried, encode-shards}
use solari.Stream.Parity.{Able}
use solari.Stream.Frame.{Carried, encode_frame-Carried}
use solari.Stream.Sequence.{multi_fec_blocks, fec_info, frame_numbers, send_batch_size, batches}
use solari.Stream.Packets.{
  fec_info-fields, consecutive, frame_numbers-consecutive, shards_from, all_shards, Within,
  batches-shards,
}

-- A code that repeats the first shard; for one data shard it is the Reed-Solomon code.
abbrev mirror : ReedSolomon
mirror = record {
  encoder = λ n parity.
      if leb (n + parity) 255
      then some (λ originals. replicate parity (flatten (take 1 originals)))
      else none;
}

mirror-Able : Able mirror
mirror-Able n parity some_n some_parity within =
    let room : leb (n + parity) 255 ≡ true = ground arith in rw room refl

abbrev picture : List ℕ
picture = 1 ∷ (2 ∷ (3 ∷ (4 ∷ (5 ∷ []))))

abbrev header_bytes : List ℕ
header_bytes = 9 ∷ (8 ∷ (7 ∷ []))

remove_inserted-concat_and_insert_example :
    remove_inserted 2 3 (elements 8 3) (concat_and_insert 2 3 header_bytes picture)
    ≡ header_bytes ++ picture
remove_inserted-concat_and_insert_example =
    remove_inserted-concat_and_insert 2 3 header_bytes picture (omega arith)

abbrev picture_coded : FecT
picture_coded = record {
  data_shards = 3;
  nr_shards = 6;
  percentage = 100;
  blocksize = 2;
  prefixsize = 0;
  shards = 5 ∷ (0 ∷ (1 ∷ (2 ∷ (1 ∷ (2 ∷ (1 ∷ (2 ∷ [])))))));
  shards_p =
      (1 ∷ (2 ∷ []))
      ∷ ((3 ∷ (4 ∷ []))
          ∷ ((5 ∷ (0 ∷ [])) ∷ ((1 ∷ (2 ∷ [])) ∷ ((1 ∷ (2 ∷ [])) ∷ ((1 ∷ (2 ∷ [])) ∷ [])))));
  payload_buffers =
      (1 ∷ (2 ∷ (3 ∷ (4 ∷ [])))) ∷ ((5 ∷ (0 ∷ (1 ∷ (2 ∷ (1 ∷ (2 ∷ (1 ∷ (2 ∷ [])))))))) ∷ []);
}

encode-picture : encode mirror picture 2 100 1 0 ≡ some picture_coded
unfolding encode point_into padded parity_shards recovery assemble elements
encode-picture = refl

encode-shards_example :
    (take 5 (carried picture_coded) ≡ picture)
    × (flatten picture_coded.payload_buffers ≡ flatten picture_coded.shards_p)
encode-shards_example =
    encode-shards mirror picture 2 100 1 0 picture_coded (omega arith) encode-picture

encode_frame-Carried_example : Carried mirror picture 4 20 2 0
encode_frame-Carried_example =
    encode_frame-Carried mirror picture 4 20 2 0 mirror-Able (omega arith) (omega arith)
      (omega arith) (omega arith) (omega arith)

fec_info-fields_example :
    (fec_info 200 20 239 / 2 ^ 22 ≡ 200)
    × (fec_info 200 20 239 / 2 ^ 12 % 2 ^ 10 ≡ 239)
    × (fec_info 200 20 239 / 2 ^ 4 % 2 ^ 8 ≡ 20)
    × (multi_fec_blocks 1 3 / 2 ^ 4 % 2 ^ 2 ≡ 1)
    × (multi_fec_blocks 1 3 / 2 ^ 6 ≡ 2)
fec_info-fields_example =
    fec_info-fields 200 20 239 1 3 (omega arith) (omega arith) (omega arith) (omega arith)
      (omega arith) (omega arith)

-- The numbers wrap around within the second block.
frame_numbers-consecutive_example :
    frame_numbers 65532 (3 ∷ (4 ∷ [])) ≡ (consecutive 65532 7, 65539)
frame_numbers-consecutive_example = frame_numbers-consecutive 65532 (3 ∷ (4 ∷ []))

batches-shards_example :
    (all_shards (batches (send_batch_size 1040) 0 0 100) ≡ shards_from 0 100)
    × Within (send_batch_size 1040) (batches (send_batch_size 1040) 0 0 100)
    × (send_batch_size 1040 ≤ 64)
    × (send_batch_size 1040 * 1040 ≤ 65536)
batches-shards_example = batches-shards 1040 100
