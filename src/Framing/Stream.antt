-- ===== src/Framing/Stream.antt =====
-- `fill_once` of src/transport/mod.rs over a byte stream that arrives in any pieces.
use scg_seshat.Prelude.{
  ℕ, suc, ◌-◌, ◌≤◌, ◌<◌, ◌≡◌, ◌≢◌, false, refl, ap, ◌∙◌, List, [], ◌∷◌, ◌++◌, length, ◌==◌,
  append_assoc, arith,
}
use scg_seshat.Prelude.Result.{Result, ok, err}
use scg_seshat.Framing.{
  FramedReader, IsValid, pending, ReadResult, read, would_block, timed_out, interrupted, failed,
  FillOutcome, filled, IoError, buffer_full, compact, settle, fill_once,
}
use scg_seshat.Framing.Fill.{compact-SameBytes, compact_room, store_lem}

-- What one read does to a stream with `u` unread bytes, of which `u'` are unread afterwards. The
-- number `l` bounds the reads to come that bring bytes or are interrupted by a signal.
abbrev pub Served : ReadResult → ℕ → List ℕ → List ℕ → ℕ → ℕ → Type 0
Served (read []) room u u' l l' = u ≡ u'
Served (read (b ∷ bytes)) room u u' l l' =
    (suc (length bytes) ≤ room) × (u ≡ b ∷ (bytes ++ u')) × (l' < l)
Served interrupted room u u' l l' = (u ≡ u') × (l' < l)
Served would_block room u u' l l' = u ≡ u'
Served timed_out room u u' l l' = u ≡ u'
Served failed room u u' l l' = u ≡ u'

-- The contract of a read function on a stream: it returns the next bytes, as many as it likes up to
-- the room that it is given, and is interrupted finitely often.
pub record ByteStream {S : Type 0} (read_fn : S → ℕ → ReadResult × S) : Type 0 where
  pub unread : S → List ℕ
  pub left : S → ℕ
  pub serves :
      (s : S) (room : ℕ)
      → Served
          (read_fn s room).0
          room
          (unread s)
          (unread (read_fn s room).1)
          (left s)
          (left (read_fn s room).1)

module _ {S : Type 0} (read_fn : S → ℕ → ReadResult × S) (stream : ByteStream read_fn) where
  open stream use {unread, left, serves}

  -- All bytes that are to come out of the reader.
  abbrev pub to_come : S → FramedReader → List ℕ
  to_come s r = pending r ++ unread s

  pub record FillsAs (s : S) (r : FramedReader) (t : Result IoError FillOutcome × FramedReader × S)
      : Type 0 where
    pub valid : IsValid t.1
    pub capacity : length t.1.buf ≡ length r.buf
    pub bytes : to_come t.2 t.1 ≡ to_come s r
    pub not_full : t.0 ≢ err buffer_full
    pub progress : t.0 ≡ ok filled → left t.2 < left s

  -- A read, by its result.
  settle_lem :
      (s s' : S) (r : FramedReader) (got : ReadResult)
      → IsValid r
      → Served got (length r.buf - r.end) (unread s) (unread s') (left s) (left s')
      → FillsAs s r ((settle got r).0, (settle got r).1, s')
  unfolding settle
  settle_lem s s' r (read []) v h = record {
    valid = v;
    capacity = refl;
    bytes = rw h;
    not_full = λ e. cc;
    progress = λ e. cc;
  }
  settle_lem s s' r (read (b ∷ bytes)) v h =
      let (valid, appended, same) = store_lem (b ∷ bytes) r v h.0 in
      record {
        valid = valid;
        capacity = same;
        bytes = rw (h.1, appended) (append_assoc (pending r) (b ∷ bytes) (unread s'));
        not_full = λ e. cc;
        progress = λ _. h.2;
      }
  settle_lem s s' r interrupted v h = record {
    valid = v;
    capacity = refl;
    bytes = rw h.0;
    not_full = λ e. cc;
    progress = λ _. h.1;
  }
  settle_lem s s' r would_block v h = record {
    valid = v;
    capacity = refl;
    bytes = rw h;
    not_full = λ e. cc;
    progress = λ e. cc;
  }
  settle_lem s s' r timed_out v h = record {
    valid = v;
    capacity = refl;
    bytes = rw h;
    not_full = λ e. cc;
    progress = λ e. cc;
  }
  settle_lem s s' r failed v h = record {
    valid = v;
    capacity = refl;
    bytes = rw h;
    not_full = λ e. cc;
    progress = λ e. cc;
  }

  -- In a valid reader whose buffered bytes leave room, and over a read function that serves a
  -- stream, `fill_once` does not fail for want of room, keeps the size of the storage, the
  -- validity of the reader and the bytes to come, and leaves fewer reads to come whenever the loop
  -- goes on.
  pub fill_once-FillsAs :
      (s : S) (r : FramedReader)
      → IsValid r
      → length (pending r) < length r.buf
      → FillsAs s r (fill_once read_fn s r)
  unfolding fill_once
  fill_once-FillsAs s r v few =
      let packed = compact r in
      let same = compact-SameBytes r v in
      let roomy = compact_room r v few in
      let room = length packed.buf - packed.end in
      let f =
        settle_lem s (read_fn s room).1 packed (read_fn s room).0 same.valid (serves s room) in
      let not_at_end : (packed.end == length packed.buf) ≡ false = ground arith in
      rw not_at_end (record {
        valid = f.valid;
        capacity = f.capacity ∙ same.capacity;
        bytes = f.bytes ∙ ap (λ t. t ++ unread s) same.bytes;
        not_full = f.not_full;
        progress = f.progress;
      })
