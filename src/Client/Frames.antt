-- ===== src/Client/Frames.antt =====
-- What internal/herdrapi/client_unix.go's `readFrameBytes` takes from a peer.
use mathlib.Core.List.{append_assoc}
use herdr_tabline.Base.{
  ℕ, ◌+◌, ◌≤◌, ◌≡◌, inl, inr, refl, sym, ap, ◌∙◌, none, List, [], ◌∷◌, ◌++◌, length, length-append,
  arith, All,
}
use herdr_tabline.Base.{ltb, leb, Bool-cases}
use herdr_tabline.Client.{
  Bytes, SliceEnd, terminated, buffer_full, end_of_stream, broken, Slice, Frame, after_slice,
  read_loop, read_frame_bytes,
}

abbrev pub chunks : List Slice → Bytes
chunks [] = []
chunks (slice ∷ slices) = slice.chunk ++ chunks slices

read_loop_bound :
    (max : ℕ) (frame : Bytes) (slices : List Slice)
    → length (read_loop max frame slices).bytes ≤ max
unfolding read_loop
read_loop_bound max frame [] = ground arith
read_loop_bound max frame (slice ∷ slices) =
    ground
      (arith, read_loop_bound max (frame ++ slice.chunk) slices, length-append frame slice.chunk)

-- The slices of a whole frame: full buffers, and then one that ends with the delimiter.
pub record IsFrame (max : ℕ) (slices : List Slice) (bytes : Bytes) (rest : List Slice)
    : Type 0 where
  pub full : List Slice
  pub last : Slice
  pub split : slices ≡ full ++ (last ∷ rest)
  pub all_full : All (λ (s : Slice). s.ends ≡ buffer_full) full
  pub last_terminated : last.ends ≡ terminated
  pub content : bytes ≡ chunks full ++ last.chunk
  pub bound : length bytes ≤ max

-- The same, behind bytes that have been read.
record Continues (frame : Bytes) (slices : List Slice) (bytes : Bytes) (rest : List Slice)
    : Type 0 where
  full : List Slice
  last : Slice
  split : slices ≡ full ++ (last ∷ rest)
  all_full : All (λ (s : Slice). s.ends ≡ buffer_full) full
  last_terminated : last.ends ≡ terminated
  content : bytes ≡ frame ++ (chunks full ++ last.chunk)

after_slice-Continues :
    (max : ℕ) (frame : Bytes) (slice : Slice) (slices : List Slice) (more : Frame) (e : SliceEnd)
    → slice.ends ≡ e
    → (more.failure ≡ none → Continues (frame ++ slice.chunk) slices more.bytes more.rest)
    → let out = after_slice max (frame ++ slice.chunk) slices more e in
      out.failure ≡ none → Continues frame (slice ∷ slices) out.bytes out.rest
after_slice-Continues max frame slice slices more terminated p go h = record {
  full = [];
  last = slice;
  split = refl;
  all_full = tt;
  last_terminated = p;
  content = refl;
}
after_slice-Continues max frame slice slices more end_of_stream p go h = cc
after_slice-Continues max frame slice slices more (broken message) p go h = cc
after_slice-Continues max frame slice slices more buffer_full p go h =
    elim (Bool-cases (leb max (length (frame ++ slice.chunk)))) [
      | inl reached ↦ absurd (ground arith)
      | inr below ↦
          let tail = go (rw below at h) in
          rw below (record {
            full = slice ∷ tail.full;
            last = tail.last;
            split = ap (λ (s : List Slice). slice ∷ s) tail.split;
            all_full = (p, tail.all_full);
            last_terminated = tail.last_terminated;
            content =
                tail.content
                ∙ append_assoc frame slice.chunk (chunks tail.full ++ tail.last.chunk)
                ∙ ap (λ (t : Bytes). frame ++ t)
                    (sym (append_assoc slice.chunk (chunks tail.full) tail.last.chunk));
          })
    ]

read_loop-Continues :
    (max : ℕ) (frame : Bytes) (slices : List Slice)
    → (read_loop max frame slices).failure ≡ none
    → Continues frame slices (read_loop max frame slices).bytes (read_loop max frame slices).rest
unfolding read_loop
read_loop-Continues max frame [] h = absurd (ground arith)
read_loop-Continues max frame (slice ∷ slices) h =
    elim (Bool-cases (ltb max (length frame + length slice.chunk))) [
      | inl large ↦ absurd (ground arith)
      | inr fits ↦ rw fits (
          after_slice-Continues max frame slice slices (read_loop max (frame ++ slice.chunk) slices)
            slice.ends refl (read_loop-Continues max (frame ++ slice.chunk) slices) (rw fits at h))
    ]

-- For every bound and whatever the peer sends: the frame that is returned, with or without an error, is no
-- longer than the bound.
pub read_frame_bytes_bound :
    (max : ℕ) (slices : List Slice) → length (read_frame_bytes max slices).bytes ≤ max
unfolding read_frame_bytes
read_frame_bytes_bound max slices = read_loop_bound max [] slices

-- For every bound and stream: a frame that is returned without an error is made of the slices up to
-- the first that ends with the delimiter, in order and complete; nothing behind it is taken, and it
-- is no longer than the bound.
pub read_frame_bytes-IsFrame :
    (max : ℕ) (slices : List Slice)
    → (read_frame_bytes max slices).failure ≡ none
    → IsFrame max slices (read_frame_bytes max slices).bytes (read_frame_bytes max slices).rest
unfolding read_frame_bytes
read_frame_bytes-IsFrame max slices h =
    let c = read_loop-Continues max [] slices h in
    record {
      full = c.full;
      last = c.last;
      split = c.split;
      all_full = c.all_full;
      last_terminated = c.last_terminated;
      content = c.content;
      bound = read_loop_bound max [] slices;
    }
