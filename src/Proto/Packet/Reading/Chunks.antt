-- ===== src/Proto/Packet/Reading/Chunks.antt =====
-- The loops of `read_packet` that wait for bytes.
use plexsoftware.Prelude.{
  ℕ, ◌<◌, ◌≤◌, ◌≡◌, refl, List, [], ◌∷◌, ◌++◌, length, arith, append_assoc, append-nil,
  length-append, ◌≢◌, Bool-cases, inl, inr, ltb,
}
use plexsoftware.Proto.Packet.{
  ReadEvent, chunk, reset, failed, Inbound, Fill, full, closed, broken, fill,
}

-- The bytes that the peer still sends.
abbrev pub pending : List ReadEvent → List ℕ
pending [] = []
pending (chunk bs ∷ es) = bs ++ pending es
pending (reset ∷ es) = pending es
pending (failed ∷ es) = pending es

-- All that is left to read, buffered or not.
abbrev pub remaining : Inbound → List ℕ
remaining s = s.buf ++ pending s.stream

-- The peer sends without a fault: no empty read, no reset, no error.
abbrev pub IsClean : List ReadEvent → Type 0
IsClean [] = Unit
IsClean (chunk bs ∷ es) = (bs ≢ []) × IsClean es
IsClean (reset ∷ es) = ⊥
IsClean (failed ∷ es) = ⊥

abbrev pub inbound_of : Fill → Inbound
inbound_of (full s) = s
inbound_of (closed s) = s
inbound_of (broken s) = s

-- Waiting moves bytes from the stream to the buffer, and drops none.
pub fill-remaining :
    (need : ℕ) (buf : List ℕ) (es : List ReadEvent)
    → remaining (inbound_of (fill need buf es)) ≡ buf ++ pending es
unfolding fill
fill-remaining need buf [] = ground arith
fill-remaining need buf (chunk [] ∷ es) = ground arith
fill-remaining need buf (chunk (b ∷ bs) ∷ es) =
    ground (arith, fill-remaining need (buf ++ b ∷ bs) es, append_assoc buf (b ∷ bs) (pending es))
fill-remaining need buf (reset ∷ es) = ground arith
fill-remaining need buf (failed ∷ es) = ground arith

-- A full buffer holds what was asked for.
pub fill-full_length :
    (need : ℕ) (buf : List ℕ) (es : List ReadEvent) (s : Inbound)
    → fill need buf es ≡ full s
    → need ≤ length s.buf
unfolding fill
fill-full_length need buf [] s e = ground arith
fill-full_length need buf (chunk [] ∷ es) s e = ground arith
fill-full_length need buf (chunk (b ∷ bs) ∷ es) s e =
    ground (arith, fill-full_length need (buf ++ b ∷ bs) es s)
fill-full_length need buf (reset ∷ es) s e = ground arith
fill-full_length need buf (failed ∷ es) s e = ground arith

-- A clean stream with enough bytes fills the buffer, and stays clean.
pub fill_enough :
    (need : ℕ) (buf : List ℕ) (es : List ReadEvent)
    → IsClean es
    → need ≤ length (buf ++ pending es)
    → (s : Inbound) × (fill need buf es ≡ full s) × IsClean s.stream
unfolding fill
fill_enough need buf [] c h =
    (record { buf = buf; stream = [] }, ground (arith, append-nil buf), tt)
fill_enough need buf (chunk [] ∷ es) c h = absurd (c.0 refl)
fill_enough need buf (chunk (b ∷ bs) ∷ es) c h = elim (Bool-cases (ltb (length buf) need)) [
  | inl short ↦
      let (s, filled, clean) =
        fill_enough need (buf ++ b ∷ bs) es c.1 (rw (append_assoc buf (b ∷ bs) (pending es)) h) in
      (s, rw (short) filled, clean)
  | inr long ↦ (record { buf = buf; stream = chunk (b ∷ bs) ∷ es }, rw long, c)
]
fill_enough need buf (reset ∷ es) c h = absurd c
fill_enough need buf (failed ∷ es) c h = absurd c

-- A clean stream with too few bytes is read to its end.
pub fill_short :
    (need : ℕ) (buf : List ℕ) (es : List ReadEvent)
    → IsClean es
    → length (buf ++ pending es) < need
    → fill need buf es ≡ closed (record { buf = buf ++ pending es; stream = [] })
unfolding fill
fill_short need buf [] c h = ground (arith, append-nil buf)
fill_short need buf (chunk [] ∷ es) c h = absurd (c.0 refl)
fill_short need buf (chunk (b ∷ bs) ∷ es) c h = ground (
  arith,
  append_assoc buf (b ∷ bs) (pending es),
  length-append buf ((b ∷ bs) ++ pending es),
  fill_short need (buf ++ b ∷ bs) es c.1,
)
fill_short need buf (reset ∷ es) c h = absurd c
fill_short need buf (failed ∷ es) c h = absurd c

-- Nothing is read into a buffer that holds enough.
pub fill_ready :
    (need : ℕ) (buf : List ℕ) (es : List ReadEvent)
    → need ≤ length buf
    → fill need buf es ≡ full (record { buf = buf; stream = es })
unfolding fill
fill_ready need buf [] h = ground arith
fill_ready need buf (chunk [] ∷ es) h = ground arith
fill_ready need buf (chunk (b ∷ bs) ∷ es) h = ground arith
fill_ready need buf (reset ∷ es) h = ground arith
fill_ready need buf (failed ∷ es) h = ground arith

-- What was buffered stays in front.
pub fill-extends :
    (need : ℕ) (buf : List ℕ) (es : List ReadEvent)
    → (more : List ℕ) × ((inbound_of (fill need buf es)).buf ≡ buf ++ more)
unfolding fill
fill-extends need buf [] = ([], ground (arith, append-nil buf))
fill-extends need buf (chunk [] ∷ es) = ([], ground (arith, append-nil buf))
fill-extends need buf (chunk (b ∷ bs) ∷ es) = elim (Bool-cases (ltb (length buf) need)) [
  | inl short ↦
      let (more, e) = fill-extends need (buf ++ b ∷ bs) es in
      ((b ∷ bs) ++ more, ground (arith, short, e, append_assoc buf (b ∷ bs) more))
  | inr long ↦ ([], ground (arith, long, append-nil buf))
]
fill-extends need buf (reset ∷ es) = ([], ground (arith, append-nil buf))
fill-extends need buf (failed ∷ es) = ([], ground (arith, append-nil buf))
