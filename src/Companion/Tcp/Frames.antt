-- ===== src/Companion/Tcp/Frames.antt =====
-- Reading the frames that a client sends.
use chiyocore.Base.{
  ℕ, zero, suc, ◌+◌, ◌≤◌, ◌<◌, ◌≡◌, refl, ap, ◌∙◌, Bool, none, some, List, [], ◌∷◌, ◌++◌, length,
  All, arith, length-append, take-length-append, drop-length-append,
}
use mathlib.Core.List.{append_assoc}
use chiyocore.Base.Bytes.{Bytes, le16, of_le-le16}
use chiyocore.Companion.Reply.{Handler}
use chiyocore.Companion.Tcp.{
  find_start, take_frame, handle_frame, read_frames, receive, End, waiting, closed, panicked,
  blocked, then_on,
}

-- A request of a client.
abbrev pub frame : Bytes → Bytes
frame body = 60 ∷ (le16 (length body) ++ body)

abbrev pub stream : List Bytes → Bytes
stream [] = []
stream (f ∷ fs) = frame f ++ stream fs

abbrev pub AreShort : List Bytes → Type 0
AreShort = All (λ f. length f < 65536)

take_frame-append :
    (body rest : Bytes)
    → length body < 65536
    → take_frame (le16 (length body) ++ (body ++ rest)) ≡ some (body, rest)
unfolding take_frame le16
take_frame-append body rest short = ground (
  arith,
  of_le-le16 (length body) short,
  length-append body rest,
  take-length-append body rest,
  drop-length-append body rest,
)

-- A frame is found at the front of a stream.
find_start-frame :
    (body rest : Bytes)
    → find_start (frame body ++ rest) ≡ some (le16 (length body) ++ (body ++ rest))
unfolding find_start le16
find_start-frame body rest = refl

-- The same continuations make the same of an end.
then_on-ext :
    {W : Type 0} (r : End × W) {k k' : W → End × W}
    → ((w : W) → k w ≡ k' w)
    → then_on r k ≡ then_on r k'
then_on-ext (waiting, w) h = h w
then_on-ext (closed, w) h = refl
then_on-ext (panicked, w) h = refl
then_on-ext (blocked, w) h = refl

length-stream : (fs : List Bytes) → length fs ≤ length (stream fs)
length-stream [] = omega arith
length-stream (f ∷ fs) = omega (arith, length-append (frame f) (stream fs), length-stream fs)

-- The start of a frame whose end is missing.
abbrev pub cut_frame : Bytes → ℕ → Bytes
cut_frame body missing = 60 ∷ (le16 (length body + missing) ++ body)

take_frame-cut_frame :
    (body : Bytes) (missing : ℕ)
    → 0 < missing
    → length body + missing < 65536
    → take_frame (le16 (length body + missing) ++ body) ≡ none
unfolding take_frame le16
take_frame-cut_frame body missing some_missing short =
    ground (arith, of_le-le16 (length body + missing) short)

module _ {W : Type 0} (handle : Bytes → Handler W (Unit {0})) (flush : W → Bool × W) where
  -- The frames one by one, each handed to the handler and followed by a flush, as long as neither ends the
  -- loop, and then `last`.
  abbrev pub handle_all : List Bytes → (W → End × W) → W → End × W
  handle_all [] last w = last w
  handle_all (f ∷ fs) last w = then_on (handle_frame handle flush f w) (handle_all fs last)

  read_frames-step :
      (fuel : ℕ) (recvd rest body left : Bytes) (w : W)
      → find_start recvd ≡ some rest
      → take_frame rest ≡ some (body, left)
      → read_frames handle flush (suc fuel) recvd w
        ≡ then_on (handle_frame handle flush body w) (read_frames handle flush fuel left)
  unfolding read_frames
  read_frames-step fuel recvd rest body left w start taken = ground arith

  -- The loop over whole frames and what stands behind them.
  read_frames-append :
      (fuel : ℕ) (fs : List Bytes) (tail : Bytes) (last : W → End × W) (w : W)
      → ((k : ℕ) (w : W) → read_frames handle flush (suc k) tail w ≡ last w)
      → AreShort fs
      → length fs < fuel
      → read_frames handle flush fuel (stream fs ++ tail) w ≡ handle_all fs last w
  read_frames-append zero fs tail last w end short enough = absurd (omega arith)
  read_frames-append (suc fuel) [] tail last w end short enough = end fuel w
  read_frames-append (suc fuel) (f ∷ fs) tail last w end short enough =
      ap (λ b. read_frames handle flush (suc fuel) b w) (append_assoc (frame f) (stream fs) tail)
      ∙ read_frames-step fuel (frame f ++ (stream fs ++ tail))
          (le16 (length f) ++ (f ++ (stream fs ++ tail))) f (stream fs ++ tail) w
          (find_start-frame f (stream fs ++ tail)) (take_frame-append f (stream fs ++ tail) short.0)
      ∙ then_on-ext (handle_frame handle flush f w)
          λ w'. read_frames-append fuel fs tail last w' end short.1 (omega arith)

  read_frames-none :
      (fuel : ℕ) (recvd rest : Bytes) (w : W)
      → find_start recvd ≡ some rest
      → take_frame rest ≡ none
      → read_frames handle flush (suc fuel) recvd w ≡ (panicked, w)
  unfolding read_frames
  read_frames-none fuel recvd rest w start cut = ground arith

  read_frames-cut_frame :
      (k : ℕ) (body : Bytes) (missing : ℕ) (w : W)
      → 0 < missing
      → length body + missing < 65536
      → read_frames handle flush (suc k) (cut_frame body missing) w ≡ (panicked, w)
  unfolding find_start le16
  read_frames-cut_frame k body missing w pos short =
      read_frames-none k (cut_frame body missing) (le16 (length body + missing) ++ body) w refl
        (take_frame-cut_frame body missing pos short)

  -- A read that ends within a frame, behind its length, hands the whole frames before it to the handler, as
  -- a read of these alone does, and then panics, unless the handler or a failed flush has ended the loop
  -- before. For frames of fewer than 65536 bytes.
  pub receive-cut_frame :
      (fs : List Bytes) (body : Bytes) (missing : ℕ) (w : W)
      → AreShort fs
      → 0 < missing
      → length body + missing < 65536
      → receive handle flush (stream fs ++ cut_frame body missing) w
        ≡ handle_all fs (λ w. (panicked, w)) w
  unfolding receive
  receive-cut_frame fs body missing w short pos whole =
      read_frames-append (length (stream fs ++ cut_frame body missing) + 1) fs
        (cut_frame body missing) (λ w. (panicked, w)) w
        (λ k w. read_frames-cut_frame k body missing w pos whole) short
        (omega (arith, length-stream fs, length-append (stream fs) (cut_frame body missing)))
