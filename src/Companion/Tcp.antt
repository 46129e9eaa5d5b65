-- ===== src/Companion/Tcp.antt =====
-- The frames of firmware/companion/src/companion_protocol/tcp.rs: the loop of `tcp_companion` over the
-- bytes of one read, with the end of it at a failed flush or in the handler, and `TcpFrameSink`. The socket
-- and the other branches of the task's `select` are not modelled.
pub mod Frames
use chiyocore.Base.{
  ℕ, zero, suc, ◌+◌, ◌%◌, Bool, true, false, Option, none, some, List, [], ◌∷◌, ◌++◌, ltb, ◌==◌,
  if◌then◌else◌, length, take, drop,
}
use chiyocore.Base.Bytes.{Bytes, le16, of_le}
use chiyocore.Companion.Reply.{Reply, Handler, done, refused}
use chiyocore.Companion.Reply

-- `memchr(b'\x3c', recvd)`, and what stands behind it.
unfoldable pub find_start : Bytes → Option Bytes
find_start [] = none
find_start (b ∷ bs) = if b == 60 then some bs else find_start bs

-- `read_u16_le` and `read_slice`; `none` is an error of either, which is unwrapped.
unfoldable pub take_frame : Bytes → Option (Bytes × Bytes)
take_frame (a ∷ b ∷ rest) =
    let len = of_le (a ∷ b ∷ []) in
    if ltb (length rest) len then none else some (take len rest, drop len rest)
take_frame _ = none

-- How the loop over one read ends: the task waits for more, leaves `recv_loop`, panics, or waits for ever.
pub data End : Type 0 where
  waiting closed panicked blocked : End

-- What follows a part of the loop, unless that has ended it.
abbrev pub then_on : {W : Type 0} → End × W → (W → End × W) → End × W
then_on (waiting, w) k = k w
then_on (closed, w) k = (closed, w)
then_on (panicked, w) k = (panicked, w)
then_on (blocked, w) k = (blocked, w)

-- `handle` is `parse_packet` on the locked handler, and `flush` the socket's, which answers whether it
-- succeeded.
module _ {W : Type 0} (handle : Bytes → Handler W (Unit {0})) (flush : W → Bool × W) where
  -- `tcp.flush()`, and the `break` if that fails.
  unfoldable pub flushed : W → End × W
  flushed w = let (sent, w') = flush w in (if sent then waiting else closed, w')

  -- One frame. An error of the handler is logged.
  unfoldable pub handle_frame : Bytes → W → End × W
  handle_frame frame w =
      let (r, w') = handle frame w in
      elim r [
        | done _ ↦ flushed w'
        | refused ↦ flushed w'
        | Reply.panicked ↦ (panicked, w')
        | Reply.blocked ↦ (blocked, w')
      ]

  -- The `while let`, on fuel.
  unfoldable pub read_frames : ℕ → Bytes → W → End × W
  read_frames zero recvd w = (panicked, w)
  read_frames (suc fuel) recvd w = elim (find_start recvd) [
    | none ↦ (waiting, w)
    | some rest ↦ elim (take_frame rest) [
      | none ↦ (panicked, w)
      | some (frame, left) ↦ then_on (handle_frame frame w) (read_frames fuel left)
    ]
  ]

  -- The loop over what one read returned: each round drops a byte.
  unfoldable pub receive : Bytes → W → End × W
  receive recvd = read_frames (length recvd + 1) recvd

-- `write_packet`, of the serialised packet.
unfoldable pub write_packet : Bytes → Bytes
write_packet body = 62 ∷ (le16 (length body % 65536) ++ body)
