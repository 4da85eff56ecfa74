-- ===== src/Ipc/Frames.antt =====
-- What is sent is received: messages over a connection, in order.
use angellab.Prelude.{
  ℕ, suc, zero, ◌+◌, ◌^◌, ◌≤◌, ◌<◌, ◌≡◌, refl, sym, ap, ◌∙◌, true, false, some, List, [], ◌∷◌, ◌++◌,
  map, arith, ltb, leb, nat_beq, max, length, All,
}
use mathlib.Core.List.{append-nil}
use angellab.Ipc.{
  Msgpack, Message, Conn, Result, ok, send, send_bytes, recv, recv_frame, recv_sized, recv_header,
  recv_body, read_full, put_uint32, uint32, max_frame_size, default_rw_timeout,
}

-- A message that msgpack writes within the limit and reads back.
abbrev pub IsEncodable : Msgpack → Message → Type 0
IsEncodable codec m =
    (b : List ℕ) × (codec.marshal m ≡ some b)
    × (codec.unmarshal b ≡ some m)
    × (0 < length b)
    × (length b ≤ max_frame_size)

abbrev pub frame : List ℕ → List ℕ
frame b = put_uint32 (length b) ++ b

-- bytes that are there from time `t` on
abbrev pub arrived : ℕ → List ℕ → List (ℕ × ℕ)
arrived t [] = []
arrived t (b ∷ bs) = (t, b) ∷ arrived t bs

pub arrived-append : (t : ℕ) (xs ys : List ℕ) → arrived t (xs ++ ys) ≡ arrived t xs ++ arrived t ys
arrived-append t [] ys = refl
arrived-append t (x ∷ xs) ys = ap (◌∷◌ (t, x)) (arrived-append t xs ys)

pub bytes_append_assoc : (xs ys zs : List ℕ) → (xs ++ ys) ++ zs ≡ xs ++ (ys ++ zs)
bytes_append_assoc [] ys zs = refl
bytes_append_assoc (x ∷ xs) ys zs = ap (◌∷◌ x) (bytes_append_assoc xs ys zs)

read_full-arrived :
    (t now d : ℕ) (bs : List ℕ) (rest : List (ℕ × ℕ))
    → t ≤ now
    → now ≤ d
    → read_full (length bs) (some d) now (arrived t bs ++ rest) ≡ (now, rest, some bs)
unfolding read_full
read_full-arrived t now d [] rest here early = refl
read_full-arrived t now d (b ∷ bs) rest here early =
    let same : max now t ≡ now = omega arith in
    let soon : leb now d ≡ true = ground arith in
    rw (same, read_full-arrived t now d bs rest here early, soon) refl

uint32-put_uint32 : (n : ℕ) → n < 2 ^ 32 → uint32 (put_uint32 n) ≡ n
uint32-put_uint32 n fits = omega arith

-- the connection after a frame has been taken from it
abbrev pub taken : Conn → List (ℕ × ℕ) → Conn
taken c rest = record c { incoming = rest; read_deadline = some (c.now + default_rw_timeout) }

pub recv-frame :
    (codec : Msgpack) (t : ℕ) (b : List ℕ) (m : Message) (rest : List (ℕ × ℕ)) (c : Conn)
    → t ≤ c.now
    → codec.unmarshal b ≡ some m
    → 0 < length b
    → length b ≤ max_frame_size
    → recv codec (record c { incoming = arrived t (frame b) ++ rest }) ≡ (taken c rest, ok m)
unfolding recv recv_frame recv_body
recv-frame codec t b m rest c here reads filled fits =
    let size = length b in
    let c' : Conn = record c { incoming = arrived t (frame b) ++ rest } in
    let c1 : Conn = taken c (arrived t b ++ rest) in
    let positive : nat_beq size 0 ≡ false = ground arith in
    let small : ltb max_frame_size size ≡ false = ground arith in
    ap (λ r. recv_header codec r c')
      (read_full-arrived t c.now (c.now + default_rw_timeout) (put_uint32 size)
        (arrived t b ++ rest) here (omega arith))
    ∙ ap
        (λ n.
          recv_sized codec n
            (read_full n (some (c.now + default_rw_timeout)) c.now (arrived t b ++ rest)) c1)
        (uint32-put_uint32 size (omega arith))
    ∙ ap (λ r. recv_sized codec size r c1)
        (read_full-arrived t c.now (c.now + default_rw_timeout) b rest here (omega arith))
    ∙ rw (positive, small, reads) refl

unfoldable pub send_all : Msgpack → List Message → Conn → Conn
send_all codec [] c = c
send_all codec (m ∷ ms) c = send_all codec ms (send codec m c).0

unfoldable pub recv_some : Msgpack → ℕ → Conn → Conn × List (Result Message)
recv_some codec zero c = (c, [])
recv_some codec (suc n) c =
    let (c', r) = recv codec c in let (c'', rs) = recv_some codec n c' in (c'', r ∷ rs)

-- the bytes of the frames
abbrev pub frames : (codec : Msgpack) (ms : List Message) → All (IsEncodable codec) ms → List ℕ
frames codec [] h = []
frames codec (m ∷ ms) (h, hs) = frame h.0 ++ frames codec ms hs

pub written-send :
    (codec : Msgpack) (m : Message) (b : List ℕ) (c : Conn)
    → codec.marshal m ≡ some b
    → length b ≤ max_frame_size
    → c.writable ≡ true
    → ((send codec m c).0.written ≡ c.written ++ frame b) × ((send codec m c).0.writable ≡ true)
unfolding send send_bytes
written-send codec m b c writes fits up =
    let small : ltb max_frame_size (length b) ≡ false = ground arith in
    rw (writes, small, up) (refl, refl)

written-send_all :
    (codec : Msgpack) (ms : List Message) (h : All (IsEncodable codec) ms) (c : Conn)
    → c.writable ≡ true
    → (send_all codec ms c).written ≡ c.written ++ frames codec ms h
unfolding send_all
written-send_all codec [] h c up = sym (append-nil c.written)
written-send_all codec (m ∷ ms) ((b, writes, reads, filled, fits), hs) c up =
    let (grown, up') = written-send codec m b c writes fits up in
    written-send_all codec ms hs (send codec m c).0 up'
    ∙ ap (λ w. w ++ frames codec ms hs) grown
    ∙ bytes_append_assoc c.written (frame b) (frames codec ms hs)

recv-frames :
    (codec : Msgpack) (t : ℕ) (ms : List Message) (h : All (IsEncodable codec) ms) (c : Conn)
    → t ≤ c.now
    → c.incoming ≡ arrived t (frames codec ms h)
    → (recv_some codec (length ms) c).1 ≡ map ok ms
unfolding recv_some
recv-frames codec t [] h c here there = refl
recv-frames codec t (m ∷ ms) ((b, writes, reads, filled, fits), hs) c here there =
    let first =
      ap (λ i. recv codec (record c { incoming = i }))
        (there ∙ arrived-append t (frame b) (frames codec ms hs))
      ∙ recv-frame codec t b m (arrived t (frames codec ms hs)) c here reads filled fits in
    ap (λ r. r.1 ∷ (recv_some codec (length ms) r.0).1) first
    ∙ ap (◌∷◌ (ok m))
        (recv-frames codec t ms hs (taken c (arrived t (frames codec ms hs))) here refl)

-- Messages that msgpack encodes within 16 MiB and decodes back arrive as they were sent: when what one
-- side has written is there, as many calls of `Recv` give the same messages in the same order.
pub recv-send_all :
    (codec : Msgpack) (ms : List Message) (sender receiver : Conn) (t : ℕ)
    → All (IsEncodable codec) ms
    → sender.writable ≡ true
    → sender.written ≡ []
    → t ≤ receiver.now
    → receiver.incoming ≡ arrived t (send_all codec ms sender).written
    → (recv_some codec (length ms) receiver).1 ≡ map ok ms
recv-send_all codec ms sender receiver t h up start here there =
    recv-frames codec t ms h receiver here (
      there
      ∙ ap (arrived t)
          (written-send_all codec ms h sender up ∙ ap (λ w. w ++ frames codec ms h) start))

-- one message, and the connection after it
pub recv-send :
    (codec : Msgpack) (m : Message) (sender receiver : Conn) (t : ℕ)
    → IsEncodable codec m
    → sender.writable ≡ true
    → sender.written ≡ []
    → t ≤ receiver.now
    → receiver.incoming ≡ arrived t (send codec m sender).0.written
    → recv codec receiver ≡ (taken receiver [], ok m)
recv-send codec m sender receiver t (b, writes, reads, filled, fits) up start here there =
    let (grown, up') = written-send codec m b sender writes fits up in
    ap (λ i. recv codec (record receiver { incoming = i }))
      (there
        ∙ ap (arrived t) (grown ∙ ap (λ w. w ++ frame b) start)
        ∙ sym (append-nil (arrived t (frame b))))
    ∙ recv-frame codec t b m [] receiver here reads filled fits
