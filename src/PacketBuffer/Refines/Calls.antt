-- ===== src/PacketBuffer/Refines/Calls.antt =====
-- The calls of a producer and a consumer of packetbuffer.c, as steps of the ring and as steps of a queue
-- of byte strings.
use vdr_plugin_mcli.Prelude.{
  ℕ, ◌+◌, ◌<◌, ◌≡◌, ◌≢◌, ap, sym, ◌∙◌, append-nil, append_assoc, none, some, false, List, [], ◌∷◌,
  ◌++◌, length,
}
use vdr_plugin_mcli.PacketBuffer.{
  PacketBuffer, Round, Packet, put_start, put_end, fill, get_start, get_end,
}
use vdr_plugin_mcli.PacketBuffer.Live.{count, live}
use vdr_plugin_mcli.PacketBuffer.Space.{IsLinear}
use vdr_plugin_mcli.PacketBuffer.Bytes.{bytes_at}

-- What a caller does and sees: a byte string that it puts, a byte string that it gets, or nothing.
pub data Call : Type 0 where
  push : (bytes : List ℕ) → Call
  pop : (bytes : List ℕ) → Call
  pop_none : Call

-- A queue of byte strings: one comes in at the end, the first goes out, or none is there.
pub data QueueStep : List (List ℕ) → Call → List (List ℕ) → Type 0 where
  pushes : (bytes : List ℕ) (q : List (List ℕ)) → QueueStep q (push bytes) (q ++ bytes ∷ [])
  pops : (bytes : List ℕ) (q : List (List ℕ)) → QueueStep (bytes ∷ q) (pop bytes) q
  is_empty : QueueStep [] pop_none []

pub data QueueSteps : List (List ℕ) → List Call → List (List ℕ) → Type 0 where
  stay : (q : List (List ℕ)) → QueueSteps q [] q
  go :
      (p q r : List (List ℕ)) (call : Call) (calls : List Call)
      → QueueStep p call q
      → QueueSteps q calls r
      → QueueSteps p (call ∷ calls) r

-- The byte strings that are put, and those that are got, in their order.
abbrev pub pushed : List Call → List (List ℕ)
pushed [] = []
pushed (push bytes ∷ calls) = bytes ∷ pushed calls
pushed (pop bytes ∷ calls) = pushed calls
pushed (pop_none ∷ calls) = pushed calls

abbrev pub popped : List Call → List (List ℕ)
popped [] = []
popped (push bytes ∷ calls) = popped calls
popped (pop bytes ∷ calls) = bytes ∷ popped calls
popped (pop_none ∷ calls) = popped calls

QueueStep-order :
    (p q : List (List ℕ)) (call : Call) (calls : List Call) (r : List (List ℕ))
    → QueueStep p call q
    → q ++ pushed calls ≡ popped calls ++ r
    → p ++ pushed (call ∷ calls) ≡ popped (call ∷ calls) ++ r
QueueStep-order _ _ _ calls r (pushes bytes q) e =
    sym (append_assoc q (bytes ∷ []) (pushed calls)) ∙ e
QueueStep-order _ _ _ calls r (pops bytes q) e = ap (bytes ∷◌) e
QueueStep-order _ _ _ calls r is_empty e = e

-- A queue gives out what waits, and then what was put.
pub QueueSteps-order :
    (p r : List (List ℕ)) (calls : List Call)
    → QueueSteps p calls r
    → p ++ pushed calls ≡ popped calls ++ r
QueueSteps-order _ _ _ (stay q) = append-nil q
QueueSteps-order _ _ _ (go p q r call calls s ss) =
    QueueStep-order p q call calls r s (QueueSteps-order q r calls ss)

-- The bytes at the place and of the size that a reader gets.
abbrev pub read_bytes : PacketBuffer → Packet → List ℕ
read_bytes b p = bytes_at b.data_buffer p.offset p.size

-- A producer that finds a place at once in a buffer whose packets lie in order and that has a slot left
-- over, copies a packet of the size to it and closes it; a consumer that holds no packet, with no
-- Invalidate outstanding, reads the packet that GetStart returns and closes it, or gets NULL from a
-- GetStart that does not wait.
pub data BufferStep : PacketBuffer → Call → PacketBuffer → Type 0 where
  puts :
      (size flags timestamp : ℕ) (bytes : List ℕ) (b : PacketBuffer) (offset : ℕ)
      (b' : PacketBuffer)
      → IsLinear (live b)
      → count b + 1 < b.pos_size
      → length bytes ≡ size
      → put_start [] size b ≡ some (some offset, b')
      → BufferStep b (push bytes) (put_end size flags timestamp (fill offset bytes b'))
  takes :
      (rounds : List Round) (starttime : ℕ) (b : PacketBuffer) (p : Packet) (b' : PacketBuffer)
      → b.pos_read ≡ none
      → b.invalidate ≡ false
      → b.rp ≢ b.wp
      → get_start rounds starttime b ≡ some (some p, b')
      → BufferStep b (pop (read_bytes b' p)) (get_end b')
  finds_none :
      (starttime : ℕ) (b b' : PacketBuffer)
      → b.pos_read ≡ none
      → b.invalidate ≡ false
      → get_start [] starttime b ≡ some (none, b')
      → BufferStep b pop_none b'

pub data BufferSteps : PacketBuffer → List Call → PacketBuffer → Type 0 where
  done : (b : PacketBuffer) → BufferSteps b [] b
  next :
      (a b c : PacketBuffer) (call : Call) (calls : List Call)
      → BufferStep a call b
      → BufferSteps b calls c
      → BufferSteps a (call ∷ calls) c
