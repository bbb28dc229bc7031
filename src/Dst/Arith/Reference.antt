-- ===== src/Dst/Arith/Reference.antt =====
-- DST_ACDecodeBit of src/libdstdec/dst_ac.c against the three functions of dst_fram.c that took its
-- place: a frame decoded by either gives the same bits.
use sacd_extract.Common.{
  ℕ, zero, suc, ◌+◌, ◌-◌, ◌*◌, ◌^◌, true, false, ◌≡◌, refl, ◌∙◌, arith, Option, some, List, [], ◌∷◌,
  Option-cases, inl, inr, ◌==◌,
}
use sacd_extract.Common.Options.{◌>>=◌}
use sacd_extract.Dst.Stream.{Memory}
use sacd_extract.Dst.Arith.{
  AcData, init_loop, renormalise, abits, one, shift_in, u32, share, rounds, lt_ac_decode_bit_init,
  lt_ac_decode_bit_decode, lt_ac_decode_bit_flush, dst_ac_decode_bit,
}

-- The bits of a frame, what the flush answers, and the decoder.
abbrev pub Frame : Type 0
Frame = List ℕ × ℕ × AcData

module _ (cb : Memory) (fs : ℕ) where
  -- One bit for each probability, then the flush.
  lt_rest : AcData → List ℕ → Option Frame
  lt_rest ac [] = let (b, ac') = lt_ac_decode_bit_flush ac cb fs in some ([], b, ac')
  lt_rest ac (p ∷ ps) = do
    (b, ac') ← lt_ac_decode_bit_decode ac p cb fs
    (bs, f, ac'') ← lt_rest ac' ps
    some (b ∷ bs, f, ac'')

  pub lt_frame : List ℕ → Option Frame
  lt_frame ps = lt_rest (lt_ac_decode_bit_init cb fs) ps

  -- The same with the one function, from the state that is given.
  pub ac_frame : AcData → List ℕ → Option Frame
  ac_frame ac [] = do (b, ac') ← dst_ac_decode_bit ac 0 cb fs 1; some ([], b, ac')
  ac_frame ac (p ∷ ps) = do
    (b, ac') ← dst_ac_decode_bit ac p cb fs 0
    (bs, f, ac'') ← ac_frame ac' ps
    some (b ∷ bs, f, ac'')

  abbrev shifted : AcData → AcData
  shifted ac = record ac {
    a = u32 (2 * ac.a);
    c = shift_in cb fs ac.cbptr ac.c;
    cbptr = ac.cbptr + 1;
  }

  init-renormalise :
      (fuel : ℕ) (ac : AcData) {ac' : AcData}
      → renormalise fuel cb fs ac ≡ some ac'
      → ac'.init ≡ ac.init
  unfolding renormalise
  init-renormalise zero ac e = ground arith
  init-renormalise (suc fuel) ac {ac'} e =
      ground (arith, init-renormalise fuel (shifted ac) {ac' = ac'})

  init-decode :
      (ac : AcData) (p : ℕ) {b : ℕ} {ac' : AcData}
      → lt_ac_decode_bit_decode ac p cb fs ≡ some (b, ac')
      → ac'.init ≡ ac.init
  unfolding lt_ac_decode_bit_decode
  init-decode ac p {b} {ac'} e =
      let ap = share ac.a p in
      let h = u32 (ac.a + 2 ^ 32 - ap) in
      ground (
        arith,
        init-renormalise rounds (record ac { c = ac.c - h; a = ap }) {ac' = ac'},
        init-renormalise rounds (record ac { a = h }) {ac' = ac'},
      )

  init-init_loop : (left : ℕ) (ac : AcData) → (init_loop left cb fs ac).init ≡ ac.init
  unfolding init_loop
  init-init_loop zero ac = refl
  init-init_loop (suc left) ac =
      init-init_loop left (record ac { c = shift_in cb fs ac.cbptr ac.c; cbptr = ac.cbptr + 1 })

  init-init : (lt_ac_decode_bit_init cb fs).init ≡ 0
  unfolding lt_ac_decode_bit_init
  init-init = init-init_loop abits (record { init = 0; c = 0; a = one - 1; cbptr = 1 })

  -- Once it is started the one function goes on as the other two do.
  one_bit :
      (ac : AcData) (p : ℕ)
      → ac.init ≡ 0
      → dst_ac_decode_bit ac p cb fs 0 ≡ lt_ac_decode_bit_decode ac p cb fs
  unfolding dst_ac_decode_bit lt_ac_decode_bit_decode
  one_bit ac p e = let started : (ac.init == 1) ≡ false = ground arith in rw started

  one_flush :
      (ac : AcData)
      → ac.init ≡ 0
      → dst_ac_decode_bit ac 0 cb fs 1 ≡ some (lt_ac_decode_bit_flush ac cb fs)
  unfolding dst_ac_decode_bit lt_ac_decode_bit_flush
  one_flush ac e = let started : (ac.init == 1) ≡ false = ground arith in rw started

  restart :
      (ac : AcData) (p flush : ℕ)
      → ac.init ≡ 1
      → dst_ac_decode_bit ac p cb fs flush
        ≡ dst_ac_decode_bit (lt_ac_decode_bit_init cb fs) p cb fs flush
  unfolding dst_ac_decode_bit
  restart ac p flush e =
      let stopped : (ac.init == 1) ≡ true = ground arith in
      let started : ((lt_ac_decode_bit_init cb fs).init == 1) ≡ false = ground (arith, init-init) in
      rw (stopped, started) (unfold lt_ac_decode_bit_init in refl)

  ac_frame-lt_rest : (ps : List ℕ) (ac : AcData) → ac.init ≡ 0 → ac_frame ac ps ≡ lt_rest ac ps
  unfolding ac_frame lt_rest
  ac_frame-lt_rest [] ac e = rw (one_flush ac e)
  ac_frame-lt_rest (p ∷ ps) ac e = elim (Option-cases (lt_ac_decode_bit_decode ac p cb fs)) [
    | inl stuck ↦ rw (one_bit ac p e, stuck)
    | inr ((b, ac'), made) ↦
        rw (one_bit ac p e, made, ac_frame-lt_rest ps ac' (init-decode ac p made ∙ e))
  ]

  -- From a decoder that is new or has been flushed, DST_ACDecodeBit called for every bit and then
  -- to flush gives the same bits, the same answer and the same registers as the three LT functions.
  pub ac_frame-lt_frame : (ac : AcData) (ps : List ℕ) → ac.init ≡ 1 → ac_frame ac ps ≡ lt_frame ps
  unfolding ac_frame lt_frame
  ac_frame-lt_frame ac [] e =
      rw (restart ac 0 1 e) (ac_frame-lt_rest [] (lt_ac_decode_bit_init cb fs) init-init)
  ac_frame-lt_frame ac (p ∷ ps) e =
      rw (restart ac p 0 e) (ac_frame-lt_rest (p ∷ ps) (lt_ac_decode_bit_init cb fs) init-init)
