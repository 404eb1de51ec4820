-- ===== src/Examples/Sampling.antt =====
-- The witness for sFlow: a datagram with one sampled frame and one extension record.
use packter.Base.{ℕ, ◌≡◌, refl, List, [], ◌∷◌, ◌++◌, arith, replicate}
use packter.Agent.{ctx_init}
use packter.Decode.{flow_decode}
use packter.Decode.Samples.{sflow_read}
use packter.Decode.Sampled.{
  Sample, IsSample, quad, ext_wire, behind, sample_wire, sample_size, block_size, each_sample,
  sflow_read-each,
}
use packter.Examples.{env, start, frame}
use packter.Proto.{ether_frame}
use packter.Wire.{byte, be16, be32}

abbrev sample : Sample
sample = record {
  head = replicate 40 0;
  len2 = 0 ∷ 0 ∷ 0 ∷ 42 ∷ [];
  frame = frame;
  fill = 0 ∷ 0 ∷ [];
  exts = record { kind = 1; rest = replicate 16 0 } ∷ [];
}

sample-IsSample : IsSample sample
sample-IsSample = record {
  head_fits = refl;
  len2_fits = refl;
  frame_fits = omega arith;
  fill_fits = omega arith;
  aligned = refl;
  exts_fit = omega arith;
  known = ((refl, refl), tt);
}

abbrev export : List ℕ
export =
    0
    ∷ 0
    ∷ 0
    ∷ 4
    ∷ 0
    ∷ 0
    ∷ 0
    ∷ 1
    ∷ 192
    ∷ 0
    ∷ 2
    ∷ 9
    ∷ 0
    ∷ 0
    ∷ 0
    ∷ 1
    ∷ 0
    ∷ 0
    ∷ 1
    ∷ 0
    ∷ 0
    ∷ 0
    ∷ 0
    ∷ 1
    ∷ (replicate 40 0
        ++ (0
            ∷ 0
            ∷ 0
            ∷ 42
            ∷ 0
            ∷ 0
            ∷ 0
            ∷ 42
            ∷ (frame ++ (0 ∷ 0 ∷ 0 ∷ 0 ∷ 0 ∷ 1 ∷ 0 ∷ 0 ∷ 0 ∷ 1 ∷ replicate 16 0))))

sflow_read-each_example :
    sflow_read env (ether_frame env (flow_decode 1 env)) export 140 start
    ≡ each_sample env (ether_frame env (flow_decode 1 env)) (sample ∷ []) [] start
sflow_read-each_example =
    sflow_read-each env (ether_frame env (flow_decode 1 env)) export [] 140 (sample ∷ []) start
      (unfold start ctx_init in refl) (unfold be32 be16 byte in refl)
      (unfold be32 be16 byte in refl) (omega arith) (sample-IsSample, tt)
      (unfold sample_wire quad behind ext_wire in refl)
      (unfold sample_size block_size ext_wire quad in omega arith)
