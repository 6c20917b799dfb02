-- ===== src/PacketBuffer/Wait.antt =====
-- The polling loops of packetbuffer.c end.
use vdr_plugin_mcli.Prelude.{
  ℕ, ◌<◌, ◌≡◌, refl, ◌≢◌, List, [], ◌∷◌, ◌++◌, Option, none, some, Bool, true, false, not, ◌&&◌,
  ◌||◌, ◌⊎◌, inl, inr, arith, ltb, ◌==◌, if◌then◌else◌, Bool-cases, Option-cases, All,
}
use vdr_plugin_mcli.PacketBuffer.{
  PacketBuffer, Round, elapsed, unlock, find_space, put_start_loop, put_start, get_start_sub,
}

abbrev pub IsDone : {A : Type 0} → Option A → Type 0
IsDone none = ⊥
IsDone (some a) = Unit {0}

-- The other thread does not change the time limits.
abbrev pub KeepsLimits : Round → Type 0
KeepsLimits r = (b : PacketBuffer) → (r.others b).put_timeout ≡ b.put_timeout

IsDone-if :
    {A : Type 0} (c : Bool) (a : A) (rest : Option A)
    → (c ≡ false → IsDone rest)
    → IsDone (if c then some a else rest)
IsDone-if true a rest h = tt
IsDone-if false a rest h = h refl

-- `starttime` behind the first test of a round.
abbrev started : Round → ℕ → PacketBuffer → ℕ
started r starttime b = if not (b.put_timeout == 0) && starttime == 0 then r.start else starttime

-- One round of the loop ends it, or leads to the next round.
put_start_round :
    (r : Round) (rounds : List Round) (starttime size : ℕ) (b : PacketBuffer)
    → ((b.put_timeout == 0 || ltb b.put_timeout (elapsed r.now (started r starttime b))) ≡ false
        → IsDone (put_start_loop rounds (started r starttime b) size (r.others b)))
    → IsDone (put_start_loop (r ∷ rounds) starttime size b)
unfolding put_start_loop
put_start_round r rounds starttime size b h = elim (Option-cases (find_space b size)) [
  | inl full ↦ rw (full, put_start_loop) (IsDone-if _ (none, unlock b) _ h)
  | inr (offset, found) ↦ rw (found, put_start_loop) tt
]

put_start_loop-IsDone :
    (before : List Round) (last : Round) (starttime size : ℕ) (b : PacketBuffer)
    → All KeepsLimits before
    → starttime ≢ 0
    → b.put_timeout < elapsed last.now starttime
    → IsDone (put_start_loop (before ++ last ∷ []) starttime size b)
put_start_loop-IsDone [] last starttime size b k s late =
    let same : started last starttime b ≡ starttime = ground arith in
    put_start_round last [] starttime size b (rw same (λ stays. absurd (ground arith)))
put_start_loop-IsDone (r ∷ before) last starttime size b k s late =
    let same : started r starttime b ≡ starttime = ground arith in
    let late' : (r.others b).put_timeout < elapsed last.now starttime = rw (k.0 b) late in
    let rest = put_start_loop-IsDone before last starttime size (r.others b) k.1 s late' in
    put_start_round r (before ++ last ∷ []) starttime size b (rw same (λ _. rest))

-- Without a time limit the first look of PutStart decides, whatever rounds there are.
put_start_at_once :
    (rounds : List Round) (size : ℕ) (b : PacketBuffer)
    → b.put_timeout ≡ 0
    → IsDone (put_start [] size b) × (put_start rounds size b ≡ put_start [] size b)
unfolding put_start put_start_loop
put_start_at_once [] size b z = (ground arith, refl)
put_start_at_once (r ∷ rounds) size b z = (ground arith, ground arith)

-- PutStart without a time limit returns at its first look, before the other thread does anything,
-- and with the same result whatever rounds follow; with a limit it returns by the round whose clock
-- is past the limit, counted from the reading in the first round. The other thread leaves the limit
-- as it is, and the first reading is not 0.
pub put_start-IsDone :
    (rounds : List Round) (first last : Round) (size : ℕ) (b : PacketBuffer)
    → KeepsLimits first
    → All KeepsLimits rounds
    → first.start ≢ 0
    → (b.put_timeout ≡ 0) ⊎ (b.put_timeout < elapsed last.now first.start)
    → ((b.put_timeout ≡ 0)
        × IsDone (put_start [] size b)
        × (put_start (first ∷ rounds ++ last ∷ []) size b ≡ put_start [] size b))
      ⊎ ((b.put_timeout ≢ 0) × IsDone (put_start (first ∷ rounds ++ last ∷ []) size b))
unfolding put_start
put_start-IsDone rounds first last size b k ks s late = elim (Bool-cases (b.put_timeout == 0)) [
  | inl none_set ↦
      let z : b.put_timeout ≡ 0 = ground arith in
      let (now, same) = put_start_at_once (first ∷ rounds ++ last ∷ []) size b z in
      inl (z, now, same)
  | inr limited ↦
      let set_limit : b.put_timeout ≢ 0 = ground arith in
      let past : b.put_timeout < elapsed last.now first.start = omega arith in
      let locked : PacketBuffer = record b { locked = true } in
      let same : started first 0 locked ≡ first.start = ground arith in
      let late' : (first.others locked).put_timeout < elapsed last.now first.start =
        rw (k locked) past in
      inr (
        set_limit,
        put_start_round first (rounds ++ last ∷ []) 0 size locked (
            rw same (λ _.
              put_start_loop-IsDone rounds last first.start size (first.others locked) ks s late')),
      )
]

-- GetStartSub returns, with a packet or NULL, by a round whose clock is past its time limit, and by
-- any round if the limit is 0.
pub get_start_sub-IsDone :
    (before : List Round) (last : Round) (starttime readp timeout : ℕ) (b : PacketBuffer)
    → (timeout ≡ 0) ⊎ (timeout < elapsed last.now starttime)
    → IsDone (get_start_sub (before ++ last ∷ []) starttime readp timeout b)
unfolding get_start_sub
get_start_sub-IsDone [] last starttime readp timeout b late = ground arith
get_start_sub-IsDone (r ∷ before) last starttime readp timeout b late =
    ground (arith, get_start_sub-IsDone before last starttime readp timeout (r.others b))
