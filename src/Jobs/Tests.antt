-- ===== src/Jobs/Tests.antt =====
-- Two frames, of which the second one is decoded first.
use sacd_extract.Common.{◌≡◌, refl, arith, true, some, [], ◌∷◌, ◌++◌, length, update}
use sacd_extract.Common.Int.{pos}
use sacd_extract.Jobs.{
  Job, Decoder, Track, decoded, sends, takes, puts, writes, Reachable, created, stepped,
  dst_decoder_create, add_job, dst_decoder_decode, take_from, take_job, insert_job, head_seq,
  put_job, write_from, write_job,
}
use sacd_extract.Jobs.Sound.{IsDone, Numbered}
use sacd_extract.Jobs.Steps.{written_in_order}
use sacd_extract.Jobs.Progress.{Run, all_written}

-- each frame is its number, and is decoded to its double
abbrev track : Track
track = record {
  frames = λ i. i ∷ [];
  count = 2;
  Decodes = λ seq input error output. (error ≡ 0) × (output ≡ (input ++ input));
}

abbrev d1 : Decoder
d1 = dst_decoder_decode (0 ∷ []) (dst_decoder_create 2)

abbrev d2 : Decoder
d2 = dst_decoder_decode (1 ∷ []) d1

abbrev first : Job
first = record { seq = 0; error = 0; more = true; input = 0 ∷ []; output = [] }

abbrev second : Job
second = record { seq = 1; error = 0; more = true; input = 1 ∷ []; output = [] }

abbrev d3 : Decoder
d3 = record d2 {
  decode_list = second ∷ [];
  decode_have = 1;
  workers = update d2.workers 0 (some first);
}

abbrev d4 : Decoder
d4 = record d3 { decode_list = []; decode_have = 0; workers = update d3.workers 1 (some second) }

abbrev d5 : Decoder
d5 = put_job 1 (record second { output = 1 ∷ 1 ∷ [] }) d4

abbrev d6 : Decoder
d6 = put_job 0 (record first { output = 0 ∷ 0 ∷ [] }) d5

abbrev d7 : Decoder
d7 = record d6 {
  write_list = record second { output = 1 ∷ 1 ∷ [] } ∷ [];
  write_first = pos 1;
  written = record first { output = 0 ∷ 0 ∷ [] } ∷ [];
  next_seq = 1;
}

reached : Reachable track 2 d7
unfolding dst_decoder_decode dst_decoder_create add_job take_job take_from put_job insert_job
    head_seq write_job write_from
reached =
    stepped
      (stepped
        (stepped
          (stepped
            (stepped (stepped (stepped created (sends (omega arith))) (sends (omega arith)))
              (takes 0 (omega arith) refl (omega arith) refl))
            (takes 1 (omega arith) refl (omega arith) refl))
          (puts 1 second _ refl (decoded 0 (1 ∷ 1 ∷ []) refl (refl, refl))))
        (puts 0 first _ refl (decoded 0 (0 ∷ 0 ∷ []) refl (refl, refl))))
      (writes refl refl refl)

written_in_order_example : Numbered (IsDone track) 0 d7.written × (length d7.written ≡ d7.next_seq)
written_in_order_example = written_in_order track 2 d7 (omega arith) reached

all_written_example :
    (d' : Decoder) × Run track d7 d'
    × (d'.sequence ≡ d7.sequence)
    × (length d'.written ≡ d7.sequence)
all_written_example =
    all_written track (λ seq input. (0, input ++ input, (refl, refl))) 2 d7 (omega arith) reached
