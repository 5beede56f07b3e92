-- ===== src/Framing/Tests.antt =====
-- The theorems on the framed reader (src/transport/mod.rs) at a stream that arrives byte by byte.
use scg_seshat.Prelude.{
  ℕ, zero, suc, ◌<◌, refl, List, [], ◌∷◌, ◌++◌, length, replicate, length-append, arith,
}
use scg_seshat.Wire.Header.{WireHeader, InRange}
use scg_seshat.Wire.Message.RoundTrip.{message_bytes, length-message_bytes}
use scg_seshat.Framing.{
  take_messages, FramedReader, IsValid, pending, take_one, ReadResult, read, would_block, fill_once,
  next_message,
}
use scg_seshat.Framing.Scan.{scan}
use scg_seshat.Framing.Take.{TakesAs, take_one-TakesAs}
use scg_seshat.Framing.Batch.{batch, CarvesAs, take_messages_lem}
use scg_seshat.Framing.Stream.{Served, ByteStream, FillsAs, fill_once-FillsAs}
use scg_seshat.Framing.Next.{Answers, next_message-Answers}

abbrev read_byte : List ℕ → ℕ → ReadResult × List ℕ
read_byte [] room = (read [], [])
read_byte (b ∷ bs) zero = (would_block, b ∷ bs)
read_byte (b ∷ bs) (suc room) = (read (b ∷ []), bs)

serves_byte :
    (s : List ℕ) (room : ℕ)
    → Served
        (read_byte s room).0
        room
        s
        (read_byte s room).1
        (length s)
        (length (read_byte s room).1)
serves_byte [] room = refl
serves_byte (b ∷ bs) zero = refl
serves_byte (b ∷ bs) (suc room) = (omega arith, refl, omega arith)

-- The state is what has not arrived yet.
abbrev byte_stream : ByteStream read_byte
byte_stream = record { unread = λ s. s; left = λ s. length s; serves = serves_byte }

abbrev no_payload : WireHeader
no_payload = record { seq = 1; ts_ns = 2; payload_len = 0 }

no_payload-InRange : InRange no_payload
no_payload-InRange = record {
  seq_fits = omega arith;
  ts_ns_fits = omega arith;
  payload_len_fits = omega arith;
}

-- Two bytes of noise are buffered.
abbrev noisy : FramedReader
noisy = record { buf = 83 ∷ 1 ∷ replicate 30 0; start = 0; end = 2 }

noisy-IsValid : IsValid noisy
noisy-IsValid = record { ordered = omega arith; inside = omega arith }

abbrev empty_reader : FramedReader
empty_reader = record { buf = replicate 32 0; start = 0; end = 0 }

empty_reader-IsValid : IsValid empty_reader
empty_reader-IsValid = record { ordered = omega arith; inside = omega arith }

arriving : List ℕ
arriving = message_bytes no_payload ++ 1 ∷ []

arriving-short : length arriving < 40
unfolding arriving
arriving-short =
    omega
      (arith, length-append (message_bytes no_payload) (1 ∷ []), length-message_bytes no_payload)

take_one_example :
    TakesAs noisy (replicate 8 0) (scan 32 (pending noisy)) (take_one (replicate 8 0) noisy)
take_one_example = take_one-TakesAs (replicate 8 0) noisy noisy-IsValid

fill_once_example :
    FillsAs read_byte byte_stream (4 ∷ 5 ∷ []) noisy (fill_once read_byte (4 ∷ 5 ∷ []) noisy)
fill_once_example =
    fill_once-FillsAs read_byte byte_stream (4 ∷ 5 ∷ []) noisy noisy-IsValid (omega arith)

next_message_example :
    let t = next_message read_byte 40 (replicate 8 0) arriving empty_reader in
    Answers read_byte byte_stream 32 (replicate 8 0) no_payload (1 ∷ []) t.0 t.1 t.3 t.2
unfolding arriving
next_message_example =
    next_message-Answers read_byte byte_stream 40 (replicate 8 0) no_payload (1 ∷ []) arriving
      empty_reader no_payload-InRange (omega arith) empty_reader-IsValid refl arriving-short

-- Room for two messages, and two bytes of noise in the reader.
take_messages_example :
    CarvesAs 0 [] [] 32
      (batch 2 32 3 (replicate 8 0) (0 ∷ 0 ∷ []) (pending noisy))
      (take_messages (replicate 8 0) 3 5 (0 ∷ 0 ∷ []) noisy)
take_messages_example =
    take_messages_lem (replicate 8 0) 3 5 (0 ∷ 0 ∷ []) noisy noisy-IsValid (omega arith)
