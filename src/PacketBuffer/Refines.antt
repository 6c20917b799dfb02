-- ===== src/PacketBuffer/Refines.antt =====
-- The ring of packetbuffer.c as a queue of byte strings: each call of a producer or a consumer is a call
-- of the queue, with the same bytes and the same answer.
pub mod Calls
use vdr_plugin_mcli.Prelude.{
  ℕ, suc, ◌+◌, ◌-◌, ◌<◌, ◌≡◌, ◌≢◌, ap, ap₂, sym, subst, ◌∙◌, Option, none, some, false, List, [],
  ◌∷◌, ◌++◌, arith, length, map,
}
use vdr_plugin_mcli.PacketBuffer.{
  PosData, PacketBuffer, Round, Packet, packet, put_start, put_end, fill, get_start, get_start_sub,
  get_end, reserve, slot,
}
use vdr_plugin_mcli.PacketBuffer.Live.{count, live, live_from, advance}
use vdr_plugin_mcli.PacketBuffer.Valid.{IsValid, HeldAt}
use vdr_plugin_mcli.PacketBuffer.Put.{live-put}
use vdr_plugin_mcli.PacketBuffer.Get.{live_front, get_start_sub_ready, get_takes_oldest}
use vdr_plugin_mcli.PacketBuffer.Space.{IsLinear}
use vdr_plugin_mcli.PacketBuffer.Refines.Calls.{
  Call, pop, push, pop_none, QueueStep, QueueSteps, pushed, popped, QueueSteps-order, pushes, pops,
  is_empty, stay, go, read_bytes, BufferStep, BufferSteps, puts, takes, finds_none, done, next,
}
use vdr_plugin_mcli.PacketBuffer.Bytes.{payload, payloads, put_start_inv, payloads-put}

buffer_of : PacketBuffer → Option (Option Packet × PacketBuffer) → PacketBuffer
buffer_of b none = b
buffer_of b (some (o, c)) = c

buffer_inj :
    {o o' : Option Packet} {b c : PacketBuffer}
    → ◌≡◌ {A = Option (Option Packet × PacketBuffer)} (some (o, b)) (some (o', c))
    → b ≡ c
unfolding buffer_of
buffer_inj {b = b} e = ap (buffer_of b) e

packet_of : Packet → Option (Option Packet × PacketBuffer) → Packet
packet_of p none = p
packet_of p (some (none, c)) = p
packet_of p (some (some q, c)) = q

packet_inj :
    {p q : Packet} {b c : PacketBuffer}
    → ◌≡◌ {A = Option (Option Packet × PacketBuffer)} (some (some p, b)) (some (some q, c))
    → p ≡ q
unfolding packet_of
packet_inj {p = p} e = ap (packet_of p) e

room_left :
    (size : ℕ) (b : PacketBuffer) (offset : ℕ) (b' : PacketBuffer)
    → put_start [] size b ≡ some (some offset, b')
    → count b + 1 < b.pos_size
    → count b' + 1 < b'.pos_size
unfolding reserve
room_left size b offset b' placed room =
    subst (λ x. count x + 1 < x.pos_size) (sym (put_start_inv size b placed).1) room

put_keeps :
    (size flags timestamp : ℕ) (bytes : List ℕ) (b : PacketBuffer) (offset : ℕ) (b' : PacketBuffer)
    → IsValid b
    → IsLinear (live b)
    → count b + 1 < b.pos_size
    → length bytes ≡ size
    → put_start [] size b ≡ some (some offset, b')
    → let c = put_end size flags timestamp (fill offset bytes b') in
      IsValid c × (payloads c ≡ payloads b ++ bytes ∷ [])
put_keeps size flags timestamp bytes b offset b' v linear room len placed = (
  (live-put [] size flags timestamp bytes b tt v placed (room_left size b offset b' placed room)).1,
  payloads-put size flags timestamp bytes b v linear room len placed,
)

-- What GetStart leaves when it holds the oldest packet.
abbrev taken : PacketBuffer → PacketBuffer
taken b = record b { pos_read_num = 1; pos_read = some b.rp }

get_start-taken :
    (rounds : List Round) (starttime : ℕ) (b : PacketBuffer) (e : PosData) (es : List PosData)
    → b.pos_read ≡ none
    → b.invalidate ≡ false
    → live b ≡ e ∷ es
    → get_start rounds starttime b ≡ some (some (packet e), taken b)
unfolding get_start
get_start-taken rounds starttime b e es idle fresh waiting =
    let (n, some_left, front, _) = live_front b e es waiting in
    ground (
      arith,
      get_start_sub_ready rounds starttime b.rp b.get_timeout (record b { pos_read_num = 1 }),
      front,
    )

data-get_end : (b : PacketBuffer) → (get_end b).data_buffer ≡ b.data_buffer
unfolding get_end
data-get_end b = ground arith

some_count : (b : PacketBuffer) → IsValid b → b.rp ≢ b.wp → (n : ℕ) × (count b ≡ suc n)
some_count b v busy = (count b - 1, ground (arith, v.rp_in, v.wp_in))

waits :
    (b : PacketBuffer)
    → IsValid b
    → b.rp ≢ b.wp
    → (e : PosData) × (es : List PosData) × (live b ≡ e ∷ es)
waits b v busy =
    let (n, some_left) = some_count b v busy in
    (
      slot b b.rp,
      live_from b.pos_buffer b.pos_size (advance b.pos_size b.rp 1) n,
      ap (live_from b.pos_buffer b.pos_size b.rp) some_left,
    )

take_keeps :
    (rounds : List Round) (starttime : ℕ) (b : PacketBuffer) (p : Packet) (b' : PacketBuffer)
    → IsValid b
    → b.pos_read ≡ none
    → b.invalidate ≡ false
    → b.rp ≢ b.wp
    → get_start rounds starttime b ≡ some (some p, b')
    → IsValid (get_end b') × (payloads b ≡ read_bytes b' p ∷ payloads (get_end b'))
unfolding payloads
take_keeps rounds starttime b p b' v idle fresh busy got =
    let (e, es, waiting) = waits b v busy in
    let (b1, first, _, _, kept, after) =
      get_takes_oldest rounds starttime b e es v idle fresh waiting in
    let here = get_start-taken rounds starttime b e es idle fresh waiting in
    let same : taken b ≡ b' = buffer_inj (sym here ∙ got) in
    let same1 : b1 ≡ b' = buffer_inj (sym first ∙ got) in
    let shown : packet e ≡ p = packet_inj (sym here ∙ got) in
    let bytes : payload b.data_buffer e ≡ read_bytes b' p = ap₂ read_bytes same shown in
    let left : (get_end b').data_buffer ≡ b.data_buffer =
      ap (λ x. (get_end x).data_buffer) (sym same) ∙ data-get_end (taken b) in
    let rest : live (get_end b') ≡ es = subst (λ x. live (get_end x) ≡ es) same1 after in
    (
      subst (λ x. IsValid (get_end x)) same1 kept,
      ap (map (payload b.data_buffer)) waiting
          ∙ ap₂ ◌∷◌ bytes (sym (ap₂ (λ d l. map (payload d) l) left rest)),
    )

-- What a GetStart that finds nothing leaves.
none_found :
    (starttime : ℕ) (b b' : PacketBuffer)
    → b.pos_read ≡ none
    → b.invalidate ≡ false
    → get_start [] starttime b ≡ some (none, b')
    → (b.rp ≡ b.wp) × (record b { pos_read_num = 1 } ≡ b')
unfolding get_start get_start_sub
none_found starttime b b' idle fresh got = ground arith

asked-IsValid :
    (b : PacketBuffer) → IsValid b → b.pos_read ≡ none → IsValid (record b { pos_read_num = 1 })
asked-IsValid b v idle = record {
  power = v.power;
  slots = v.slots;
  rp_in = v.rp_in;
  wp_in = v.wp_in;
  read_in = v.read_in;
  write_in = v.write_in;
  fits = v.fits;
  sizes = v.sizes;
  held = subst (λ o. HeldAt o 1 (count b)) (sym idle) tt;
}

payloads_empty : (b : PacketBuffer) → b.rp ≡ b.wp → payloads b ≡ []
unfolding payloads
payloads_empty b e =
    let nothing : count b ≡ 0 = ground arith in
    ap (λ n. map (payload b.data_buffer) (live_from b.pos_buffer b.pos_size b.rp n)) nothing

none_keeps :
    (starttime : ℕ) (b b' : PacketBuffer)
    → IsValid b
    → b.pos_read ≡ none
    → b.invalidate ≡ false
    → get_start [] starttime b ≡ some (none, b')
    → IsValid b' × (payloads b ≡ []) × (payloads b' ≡ [])
none_keeps starttime b b' v idle fresh got =
    let (e, same) = none_found starttime b b' idle fresh got in
    (
      subst IsValid same (asked-IsValid b v idle),
      payloads_empty b e,
      subst (λ x. payloads x ≡ []) same (payloads_empty (record b { pos_read_num = 1 }) e),
    )

buffer_step :
    (b c : PacketBuffer) (call : Call)
    → BufferStep b call c
    → IsValid b
    → IsValid c × QueueStep (payloads b) call (payloads c)
buffer_step _ _ _ (puts size flags timestamp bytes b offset b' linear room len placed) v =
    let (kept, grown) = put_keeps size flags timestamp bytes b offset b' v linear room len placed in
    (kept, subst (QueueStep (payloads b) (push bytes)) (sym grown) (pushes bytes (payloads b)))
buffer_step _ _ _ (takes rounds starttime b p b' idle fresh busy got) v =
    let (kept, before) = take_keeps rounds starttime b p b' v idle fresh busy got in
    let bytes = read_bytes b' p in
    let q = payloads (get_end b') in
    (kept, subst (λ x. QueueStep x (pop bytes) q) (sym before) (pops bytes q))
buffer_step _ _ _ (finds_none starttime b b' idle fresh got) v =
    let (kept, before, after) = none_keeps starttime b b' v idle fresh got in
    (
      kept,
      subst (λ x. QueueStep x pop_none (payloads b')) (sym before)
          (subst (QueueStep [] pop_none) (sym after) is_empty),
    )

buffer_steps :
    (a c : PacketBuffer) (calls : List Call)
    → BufferSteps a calls c
    → IsValid a
    → IsValid c × QueueSteps (payloads a) calls (payloads c)
buffer_steps _ _ _ (done b) v = (v, stay (payloads b))
buffer_steps _ _ _ (next a b c call calls s ss) v =
    let (v', q) = buffer_step a b call s v in
    let (v'', qs) = buffer_steps b c calls ss v' in
    (v'', go (payloads a) (payloads b) (payloads c) call calls q qs)

-- The ring implements the queue: from a valid buffer, each run of producers that find a place at
-- once (packets in order, a slot left over), consumers that read the packet that GetStart returns
-- and close it, and consumers that get NULL at once from an empty ring (both with no packet held
-- and no Invalidate outstanding), keeps it valid; with the same calls, each byte string that is put
-- and each answer that is read, it is a run of the queue from the byte strings that waited before
-- to those that wait after. So the strings that waited and behind them those that are put are, in
-- this order, those that are read and behind them those that wait.
pub BufferSteps-QueueSteps :
    (a c : PacketBuffer) (calls : List Call)
    → BufferSteps a calls c
    → IsValid a
    → IsValid c
      × QueueSteps (payloads a) calls (payloads c)
      × (payloads a ++ pushed calls ≡ popped calls ++ payloads c)
BufferSteps-QueueSteps a c calls s v =
    let (v', qs) = buffer_steps a c calls s v in
    (v', qs, QueueSteps-order (payloads a) (payloads c) calls qs)
