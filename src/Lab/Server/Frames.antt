-- ===== src/Lab/Server/Frames.antt =====
-- The receive loop of an angel's connection: it ends, and how.
use angellab.Prelude.{
  ℕ, suc, zero, ◌+◌, ◌≤◌, ◌<◌, ◌≡◌, refl, Option, none, some, List, [], ◌∷◌, arith, inl, inr,
  Option-cases, max, length,
}
use angellab.Ipc.{
  Message, Msgpack, Conn, ok, read_full, recv, recv_frame, recv_sized, uint32, frame_header_size,
  default_rw_timeout, send, send_bytes,
}

read_full-le :
    (n : ℕ) (d : Option ℕ) (now : ℕ) (incoming : List (ℕ × ℕ))
    → length (read_full n d now incoming).1 ≤ length incoming
unfolding read_full
read_full-le zero d now incoming = omega arith
read_full-le (suc n) d now [] = omega arith
read_full-le (suc n) d now ((t, b) ∷ rest) = ground (arith, read_full-le n d (max now t) rest)

read_full-some :
    (n : ℕ) (d : Option ℕ) (now : ℕ) (incoming : List (ℕ × ℕ)) (bytes : List ℕ)
    → (read_full n d now incoming).2 ≡ some bytes
    → length (read_full n d now incoming).1 + n ≡ length incoming
unfolding read_full
read_full-some zero d now incoming bytes h = omega arith
read_full-some (suc n) d now [] bytes h = ground arith
read_full-some (suc n) d now ((t, b) ∷ rest) bytes h =
    elim (Option-cases (read_full n d (max now t) rest).2) [
      | inl short ↦ ground (arith, short)
      | inr (more, read) ↦ ground (arith, read, read_full-some n d (max now t) rest more read)
    ]

recv_sized-le :
    (codec : Msgpack) (size : ℕ) (c : Conn)
    → let read = read_full size (some (c.now + default_rw_timeout)) c.now c.incoming in
      length (recv_sized codec size read c).0.incoming ≤ length c.incoming
recv_sized-le codec size c =
    ground (arith, read_full-le size (some (c.now + default_rw_timeout)) c.now c.incoming)

recv_frame-shorter :
    (codec : Msgpack) (header : Option (List ℕ)) (c : Conn) (n : ℕ) (msg : Message)
    → ((bytes : List ℕ) → header ≡ some bytes → length c.incoming < n)
    → (recv_frame codec header c).1 ≡ ok msg
    → length (recv_frame codec header c).0.incoming < n
unfolding recv_frame
recv_frame-shorter codec none c n msg less h = ground arith
recv_frame-shorter codec (some bytes) c n msg less h =
    ground (arith, less bytes refl, recv_sized-le codec (uint32 bytes) c)

-- a frame that is received takes at least its header off what is there
pub recv-shorter :
    (codec : Msgpack) (c : Conn) (msg : Message)
    → (recv codec c).1 ≡ ok msg
    → length (recv codec c).0.incoming < length c.incoming
unfolding recv
recv-shorter codec c msg h =
    let d = some (c.now + default_rw_timeout) in
    let read = read_full frame_header_size d c.now c.incoming in
    recv_frame-shorter codec read.2 _ (length c.incoming) msg
      (λ bytes found.
        omega (arith, read_full-some frame_header_size d c.now c.incoming bytes found))
      h

-- and a failed one adds nothing
pub incoming-send :
    (codec : Msgpack) (msg : Message) (c : Conn) → (send codec msg c).0.incoming ≡ c.incoming
unfolding send send_bytes
incoming-send codec msg c = elim (Option-cases (codec.marshal msg)) [
  | inl failed ↦ ground (arith, failed)
  | inr (bytes, fine) ↦ ground (arith, fine)
]
