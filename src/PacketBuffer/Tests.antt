-- ===== src/PacketBuffer/Tests.antt =====
-- Runs of cMyPacketBuffer (packetbuffer.c) on small buffers.
use mathlib.Core.List.{flatten}
use vdr_plugin_mcli.Prelude.{
  ℕ, ◌+◌, ◌*◌, ◌≤◌, ◌<◌, ◌≡◌, ◌≢◌, refl, ◌⊎◌, inr, true, false, none, some, List, [], ◌∷◌, ◌++◌,
  map, take, drop, arith, All, replicate,
}
use vdr_plugin_mcli.PacketBuffer.{
  PosData, zero_pos, PacketBuffer, create, slot, find_space, space_between, Round, reserve,
  put_start_loop, put_start, put_end, fill, Packet, packet, get_start, get_start_sub, get_end,
}
use vdr_plugin_mcli.PacketBuffer.Live.{live}
use vdr_plugin_mcli.PacketBuffer.Valid.{IsValid}
use vdr_plugin_mcli.PacketBuffer.Create.{create_lem}
use vdr_plugin_mcli.PacketBuffer.Put.{Placed, put_start_safe, live-put, live-put_full}
use vdr_plugin_mcli.PacketBuffer.Get.{get_takes_oldest}
use vdr_plugin_mcli.PacketBuffer.Space.{IsLinear, Apart, find_space-Apart, find_space_overlaps}
use vdr_plugin_mcli.PacketBuffer.Refines.Calls.{
  QueueSteps, push, pop, read_bytes, puts, takes, done, next,
}
use vdr_plugin_mcli.PacketBuffer.Refines.{BufferSteps-QueueSteps}
use vdr_plugin_mcli.PacketBuffer.Bytes.{bytes_at, payload, payloads, payloads-put}
use vdr_plugin_mcli.PacketBuffer.Multiple.{get_start_multiple}
use vdr_plugin_mcli.PacketBuffer.Multiple.Loop.{total, run_length}
use vdr_plugin_mcli.PacketBuffer.Multiple.Laws.{get_multiple_takes_run}
use vdr_plugin_mcli.PacketBuffer.Multiple.Uniform.{get_multiple_bytes}
use vdr_plugin_mcli.PacketBuffer.Wait.{IsDone, put_start-IsDone}

abbrev part : ℕ → ℕ → PosData
part offset size = record {
  offset = offset;
  size = size;
  real_size = size;
  flags = 0;
  timestamp = 0;
}

-- A buffer of 100 bytes and 4 slots.
abbrev ring : List PosData → ℕ → PacketBuffer
ring slots wp = record {
  data_size = 100;
  pos_size = 4;
  data_buffer = λ a. a;
  pos_buffer = slots;
  rp = 0;
  wp = wp;
  pos_read = none;
  pos_write = none;
  pos_read_num = 0;
  invalidate = false;
  put_timeout = 0;
  get_timeout = 0;
  locked = false;
}

-- Two packets of 10 bytes wait.
abbrev two : PacketBuffer
two = ring (part 0 10 ∷ part 10 10 ∷ zero_pos ∷ zero_pos ∷ []) 2

-- Three packets wait.
abbrev three : PacketBuffer
three = ring (part 0 10 ∷ part 10 10 ∷ part 20 10 ∷ zero_pos ∷ []) 3

-- The newest packet lies in front of the oldest.
abbrev turned : PacketBuffer
turned = ring (part 50 20 ∷ part 0 40 ∷ zero_pos ∷ zero_pos ∷ []) 2

two-IsValid : IsValid two
two-IsValid = record {
  power = (2, omega arith, refl);
  slots = refl;
  rp_in = omega arith;
  wp_in = omega arith;
  read_in = tt;
  write_in = tt;
  fits = (omega arith, (omega arith, (omega arith, (omega arith, tt))));
  sizes = (omega arith, (omega arith, tt));
  held = tt;
}

three-IsValid : IsValid three
three-IsValid = record {
  power = (2, omega arith, refl);
  slots = refl;
  rp_in = omega arith;
  wp_in = omega arith;
  read_in = tt;
  write_in = tt;
  fits = (omega arith, (omega arith, (omega arith, (omega arith, tt))));
  sizes = (omega arith, (omega arith, (omega arith, tt)));
  held = tt;
}

two-IsLinear : IsLinear (live two)
two-IsLinear = (omega arith, tt)

-- The buffers after PutStart for 10 bytes.
abbrev two_placed : PacketBuffer
two_placed = record two {
  locked = true;
  pos_write = some 2;
  pos_buffer =
      part 0 10 ∷ part 10 10 ∷ record zero_pos { offset = 20; real_size = 10 } ∷ zero_pos ∷ [];
}

abbrev three_placed : PacketBuffer
three_placed = record three {
  locked = true;
  pos_write = some 3;
  pos_buffer =
      part 0 10 ∷ part 10 10 ∷ part 20 10 ∷ record zero_pos { offset = 30; real_size = 10 } ∷ [];
}

find_two : find_space two 10 ≡ some 20
unfolding find_space space_between
find_two = refl

put_two : put_start [] 10 two ≡ some (some 20, two_placed)
unfolding put_start put_start_loop find_space space_between reserve
put_two = refl

put_three : put_start [] 10 three ≡ some (some 30, three_placed)
unfolding put_start put_start_loop find_space space_between reserve
put_three = refl

abbrev ten : List ℕ
ten = replicate 10 7

put_start_safe_example : IsValid two_placed × Placed 10 (some 20) two_placed
put_start_safe_example = put_start_safe [] 10 two tt two-IsValid put_two

live-put_example :
    (live (put_end 10 0 5 (fill 20 ten two_placed))
      ≡ live two_placed
        ++ record { offset = 20; size = 10; real_size = 10; flags = 0; timestamp = 5 } ∷ [])
    × IsValid (put_end 10 0 5 (fill 20 ten two_placed))
live-put_example = live-put [] 10 0 5 ten two tt two-IsValid put_two (omega arith)

live-put_full_example : live (put_end 10 0 5 (fill 30 ten three_placed)) ≡ []
live-put_full_example = live-put_full [] 10 0 5 ten three tt three-IsValid put_three refl

payloads-put_example : payloads (put_end 10 0 5 (fill 20 ten two_placed)) ≡ payloads two ++ ten ∷ []
payloads-put_example =
    payloads-put 10 0 5 ten two two-IsValid two-IsLinear (omega arith) refl put_two

-- The buffer after the new packet, and after the GetStart behind it.
abbrev put_more : PacketBuffer
put_more = put_end 10 0 5 (fill 20 ten two_placed)

abbrev oldest : Packet
oldest = packet (part 0 10)

abbrev held_oldest : PacketBuffer
held_oldest = record put_more { pos_read_num = 1; pos_read = some 0 }

get_more : get_start [] 0 put_more ≡ some (some oldest, held_oldest)
unfolding get_start get_start_sub put_end fill
get_more = refl

more_waits : put_more.rp ≢ put_more.wp
unfolding put_end fill
more_waits e = omega (arith, e)

-- Ten bytes are put, and the ten bytes that waited first are read.
BufferSteps-QueueSteps_example :
    IsValid (get_end held_oldest)
    × QueueSteps
        (payloads two)
        (push ten ∷ pop (read_bytes held_oldest oldest) ∷ [])
        (payloads (get_end held_oldest))
    × (payloads two ++ ten ∷ [] ≡ read_bytes held_oldest oldest ∷ payloads (get_end held_oldest))
unfolding put_end fill
BufferSteps-QueueSteps_example =
    BufferSteps-QueueSteps two (get_end held_oldest)
      (push ten ∷ pop (read_bytes held_oldest oldest) ∷ [])
      (next two put_more (get_end held_oldest) (push ten) _
        (puts 10 0 5 ten two 20 two_placed two-IsLinear (omega arith) refl put_two)
        (next put_more (get_end held_oldest) (get_end held_oldest) _ []
          (takes [] 0 put_more oldest held_oldest refl refl more_waits get_more)
          (done (get_end held_oldest))))
      two-IsValid

find_space-Apart_example : All (Apart 20 10) (live two)
find_space-Apart_example = find_space-Apart two 10 two-IsValid two-IsLinear find_two

find_space_overlaps_example :
    (offset : ℕ) × (find_space turned 30 ≡ some offset) × ¬ Apart offset 30 (slot turned turned.rp)
find_space_overlaps_example =
    find_space_overlaps turned 30 (λ h. omega (arith, h)) (omega arith) (omega arith) (omega arith)
      (omega arith) (omega arith)

get_takes_oldest_example :
    (b' : PacketBuffer) × (get_start [] 0 two ≡ some (some (packet (part 0 10)), b'))
    × IsValid b'
    × (live b' ≡ part 0 10 ∷ part 10 10 ∷ [])
    × IsValid (get_end b')
    × (live (get_end b') ≡ part 10 10 ∷ [])
get_takes_oldest_example =
    get_takes_oldest [] 0 two (part 0 10) (part 10 10 ∷ []) two-IsValid refl refl refl

get_multiple_takes_run_example :
    let n = run_length 50 10 0 (part 10 10 ∷ []) in
    (b' : PacketBuffer) × (get_start_multiple [] 0 50 two
      ≡ some
          (some (record (packet (part 0 10)) { size = 10 + total (take n (part 10 10 ∷ [])) }), b'))
    × IsValid b'
    × (live b' ≡ part 0 10 ∷ part 10 10 ∷ [])
    × IsValid (get_end b')
    × (live (get_end b') ≡ drop n (part 10 10 ∷ []))
get_multiple_takes_run_example =
    get_multiple_takes_run [] 0 50 two (part 0 10) (part 10 10 ∷ []) two-IsValid refl refl

get_multiple_bytes_example :
    let run = part 0 10 ∷ take (run_length 50 10 0 (part 10 10 ∷ [])) (part 10 10 ∷ []) in
    (p : Packet) × (b' : PacketBuffer) × (get_start_multiple [] 0 50 two ≡ some (some p, b'))
    × (bytes_at two.data_buffer p.offset p.size ≡ flatten (map (payload two.data_buffer) run))
    × ((p.size ≤ 10) ⊎ (p.size ≤ 50))
get_multiple_bytes_example =
    get_multiple_bytes [] 0 50 10 two (part 0 10) (part 10 10 ∷ []) two-IsValid refl refl
      (refl, (refl, tt))

create_lem_example :
    IsValid (create 20000 10)
    × (live (create 20000 10) ≡ [])
    × ((create 20000 10).data_size ≡ 20000)
    × (10 ≤ (create 20000 10).pos_size)
    × (((create 20000 10).pos_size ≡ 1) ⊎ ((create 20000 10).pos_size < 2 * 10))
create_lem_example = create_lem 20000 10 (omega arith)

-- A round in which the other thread does nothing.
abbrev idle : ℕ → Round
idle now = record { start = 3; now = now; others = λ b. b }

abbrev patient : PacketBuffer
patient = record three { put_timeout = 20 }

put_start-IsDone_example :
    ((patient.put_timeout ≡ 0)
      × IsDone (put_start [] 90 patient)
      × (put_start (idle 10 ∷ [] ++ idle 30 ∷ []) 90 patient ≡ put_start [] 90 patient))
    ⊎ ((patient.put_timeout ≢ 0) × IsDone (put_start (idle 10 ∷ [] ++ idle 30 ∷ []) 90 patient))
put_start-IsDone_example =
    put_start-IsDone [] (idle 10) (idle 30) 90 patient (λ b. refl) tt (λ h. omega (arith, h))
      (inr (omega arith))
