-- ===== src/Ipc/Deadlines.antt =====
-- `Recv` sets its own deadline.
use angellab.Prelude.{◌∙◌, ap, ℕ, ◌+◌, ◌<◌, ◌≡◌, refl, false, Option, List, ◌∷◌, arith, leb, max}
use angellab.Ipc.{
  Msgpack, Conn, error, read_header, recv, recv_frame, read_full, set_deadline, default_rw_timeout,
}

-- When the next byte arrives later than ten seconds from now, `Recv` fails, ten seconds from now,
-- whatever deadline was set before it and even when it was cleared.
pub recv_own_deadline :
    (codec : Msgpack) (d : Option ℕ) (c : Conn) (t b : ℕ) (rest : List (ℕ × ℕ))
    → c.incoming ≡ (t, b) ∷ rest
    → c.now + default_rw_timeout < t
    → ((recv codec (set_deadline d c)).1 ≡ error read_header)
      × ((recv codec (set_deadline d c)).0.now ≡ c.now + default_rw_timeout)
unfolding recv recv_frame read_full set_deadline
recv_own_deadline codec d c t b rest next late =
    let missed : leb (max c.now t) (c.now + default_rw_timeout) ≡ false = ground arith in
    (
      ap (λ i. (recv codec (set_deadline d (record c { incoming = i }))).1) next ∙ rw missed refl,
      ap (λ i. (recv codec (set_deadline d (record c { incoming = i }))).0.now) next
          ∙ rw missed (omega arith),
    )
