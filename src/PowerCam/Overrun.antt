-- ===== src/PowerCam/Overrun.antt =====
-- The ring of events before anything has been read, as `i2cPowerCam_attach` leaves it, and the events
-- of an interrupt.
use gest_aqua.Prelude.{Bool, Bool-cases, List, [], ap, append-nil, append_assoc, arith, bit_and}
use gest_aqua.Prelude.{eq_ℤ, false, get_or, if◌then◌else◌, inl, inr, length, length-append}
use gest_aqua.Prelude.{negsuc, pos, refl, some, suc, sym, true, zero, ℕ, ◌%◌, ◌++◌, ◌+◌, ◌-◌}
use gest_aqua.Prelude.{◌<◌, ◌==◌, ◌^◌, ◌∙◌, ◌∷◌, ◌≡◌, ◌≤◌, ◌⊎◌}
use gest_aqua.PowerCam.{I2c, Kernel, PowerCam, cmd_read, cmd_w_int, frame, put, set_int_code}
use gest_aqua.PowerCam.Bus.{clear_int, receive, send, send_cmd}
use gest_aqua.PowerCam.Life.{write_i2c_lem}
use gest_aqua.PowerCam.Queue.{IsValid, data_in-events_of, entries, events_of}
use gest_aqua.PowerCam.Ring.{advance, data_in, take_data}
use gest_aqua.PowerCam.Rings.{kept}
use gest_aqua.PowerCam.Tasks.{events, read_events, status_tries}

advance_nine : (k : Kernel) → advance k 9 ≡ 0
unfolding advance
advance_nine k = ground arith

advance_unread : (k : Kernel) → advance k 255 ≡ 0
unfolding advance
advance_unread k = ground arith

module _ {S : Type 0} (k : Kernel) where
  -- While nothing has been read, `DataIn` refuses no event, however many there are: the index of
  -- the reader is still the 255 of the attachment, which the writer's never meets.
  pub data_in-unread :
      (data1 data2 : ℕ) (c : PowerCam S)
      → c.bufr1 ≡ 255
      → (c.bufr0 < 10) ⊎ (c.bufr0 ≡ 255)
      → let (c', ret) = data_in k true data1 data2 c in
        (ret ≡ pos 0) × (c'.bufr0 < 10) × (c'.bufr1 ≡ 255)
  unfolding data_in advance
  data_in-unread data1 data2 c unread h = ground arith

  -- When ten events wait and nothing has been read, the eleventh is accepted and is the only one
  -- that can then be read: after it nothing waits, and the ten before it are lost.
  pub take_data-overrun :
      (data1 data2 : ℕ) (c : PowerCam S)
      → c.bufr1 ≡ 255
      → c.bufr0 ≡ 9
      → let (c1, ret) = data_in k true data1 data2 c in
        (c2 : PowerCam S) × (ret ≡ pos 0)
        × (take_data k false 2 c1 ≡ some (c2, pos 2, data1 ∷ data2 ∷ []))
        × (c2.data_on ≡ false)
        × (events_of c2 ≡ [])
  unfolding data_in take_data
  take_data-overrun data1 data2 c unread nine =
      rw (nine, unread, advance_nine k, advance_unread k)
        (
          record c {
            bufr0 = 0;
            bufr1 = 0;
            data_on = false;
            buf_read = put 1 data2 (put 0 data1 c.buf_read);
          },
          refl,
          refl,
          refl,
          refl,
        )

-- The events of the bits of a status below a position, the highest first.
abbrev pub bits_of : ℕ → ℕ → List (ℕ × ℕ)
bits_of zero status = []
bits_of (suc n) status =
    let rest = bits_of n status in
    if bit_and status (2 ^ n) == 0 then rest else (set_int_code, 2 ^ n) ∷ rest

module _ {S : Type 0} (i2c : I2c S) (k : Kernel) where
  -- The loop of `I2c_interrupt_task` on the bits of a status, on a ring from which something has been
  -- read and that has room for an event of each bit: the events of the bits below the position are
  -- appended, the highest bit first, and the status to acknowledge stays whole. The ring stays valid.
  events-events_of :
      (n status : ℕ) (c : PowerCam S)
      → IsValid c
      → length (events_of c) + n ≤ 9
      → let (c', status') = events i2c k n status c in
        (events_of c' ≡ events_of c ++ bits_of n status) × (status' ≡ status) × IsValid c'
  unfolding events
  events-events_of zero status c v room = (sym (append-nil (events_of c)), refl, v)
  events-events_of (suc n) status c v room = elim (Bool-cases (bit_and status (2 ^ n) == 0)) [
    | inl e ↦ rw e (events-events_of n status c v (omega arith))
    | inr e ↦
        let (v1, branch) = data_in-events_of k set_int_code (2 ^ n) c v in
        let t : (length (events_of c) == 9) ≡ false = ground arith in
        let (ok, more) = rw t at branch in
        let c1 = (data_in k true set_int_code (2 ^ n) c).0 in
        let x : ℕ × ℕ = (set_int_code, 2 ^ n) in
        let len : length (events_of c1) ≡ length (events_of c) + 1 =
          ap length more ∙ length-append (events_of c) (x ∷ []) in
        let (all, kept, v2) = events-events_of n status c1 v1 (omega (arith, len)) in
        rw (e, ok)
          (
            all
                ∙ ap (λ l. l ++ bits_of n status) more
                ∙ append_assoc (events_of c) (x ∷ []) (bits_of n status),
            kept,
            v2,
          )
  ]

  -- The ring of events, and the way to the board.
  abbrev ring_of : PowerCam S → ℕ × ℕ × Bool × (ℕ → ℕ)
  ring_of c = (c.bufr0, c.bufr1, c.data_on, c.buf_read)

  abbrev way : PowerCam S → S × Bool
  way c = (c.bus, c.client)

  abbrev events_in : ℕ × ℕ × Bool × (ℕ → ℕ) → List (ℕ × ℕ)
  events_in (r0, r1, on, m) = entries m r1 ((r0 + 10 - r1) % 10)

  IsValid-ring_of : (c c' : PowerCam S) → ring_of c' ≡ ring_of c → IsValid c → IsValid c'
  IsValid-ring_of c c' e (h0, h1, on) =
      let e0 : c'.bufr0 ≡ c.bufr0 = ap (λ r. r.0) e in
      let e1 : c'.bufr1 ≡ c.bufr1 = ap (λ r. r.1) e in
      let e2 : c'.data_on ≡ c.data_on = ap (λ r. r.2) e in (rw e0 h0, rw e1 h1, e2 ∙ rw (e0, e1) on)

  ring_of-status_tries :
      (n status : ℕ) (c : PowerCam S)
      → (ring_of (status_tries i2c k n status c).0 ≡ ring_of c)
        × ((status_tries i2c k n status c).0.client ≡ c.client)
  unfolding status_tries receive
  ring_of-status_tries zero status c = (refl, refl)
  ring_of-status_tries (suc n) status c =
      let (c', ret, answer) = receive i2c (cmd_read 2) (status ∷ []) c in
      let (ring, client) = ring_of-status_tries n (get_or answer 0 0) c' in ground arith

  ring_of-clear_int : (status : ℕ) (c : PowerCam S) → ring_of (clear_int i2c status c) ≡ ring_of c
  unfolding clear_int send
  ring_of-clear_int status c = ground arith

  way-data_in : (data1 data2 : ℕ) (c : PowerCam S) → way (data_in k true data1 data2 c).0 ≡ way c
  unfolding data_in
  way-data_in data1 data2 c = ground arith

  way-events : (n status : ℕ) (c : PowerCam S) → way (events i2c k n status c).0 ≡ way c
  unfolding events
  way-events zero status c = refl
  way-events (suc n) status c =
      let c' = (data_in k true set_int_code (2 ^ n) c).0 in
      let one = way-data_in set_int_code (2 ^ n) c in
      let full = way-events n (bit_and status (255 - 2 ^ n)) c' in
      let stored = way-events n status c' in let skipped = way-events n status c in ground arith

  bus-clear_int :
      (status : ℕ) (c : PowerCam S)
      → c.client ≡ true
      → (clear_int i2c status c).bus ≡ (i2c.master_send (frame cmd_w_int 1 status) c.bus).0
  unfolding clear_int send send_cmd
  bus-clear_int status c there = rw (there, write_i2c_lem i2c (frame cmd_w_int 1 status) c.bus) refl

  -- A char without a sign is never -1.
  uc_positive : (uc : ℕ) → eq_ℤ (pos uc) (negsuc 0) ≡ false
  uc_positive uc = ground arith

  -- The events of a status, and its acknowledgement.
  read_events_lem :
      (garbage : ℕ) (c : PowerCam S)
      → let (c1, uc, status) = status_tries i2c k 3 garbage c in
        read_events i2c k garbage c ≡ (
          if status == 0
          then clear_int i2c status c1
          else clear_int i2c (events i2c k 7 status c1).1 (events i2c k 7 status c1).0)
  unfolding read_events
  read_events_lem garbage c =
      let (c1, uc, status) = status_tries i2c k 3 garbage c in
      elim (Bool-cases (status == 0)) [
        | inl e ↦ rw (uc_positive uc, e) refl
        | inr e ↦ rw (uc_positive uc, e) refl
      ]

  -- The work of an interrupt of the board, on a ring from which something has been read and that has
  -- room for seven events. The events of the bits of weight 64 down to 1 of the status that the
  -- tries to read it leave are appended, the highest first: the bit of weight 128 gives no event. The board is then sent
  -- the whole status as acknowledged, this bit included. The ring stays valid. The board is there.
  pub read_events-events_of :
      (garbage : ℕ) (c : PowerCam S)
      → IsValid c
      → c.client ≡ true
      → length (events_of c) + 7 ≤ 9
      → let (c1, uc, status) = status_tries i2c k 3 garbage c in
        let c2 = read_events i2c k garbage c in
        (events_of c2 ≡ events_of c ++ bits_of 7 status)
        × (c2.bus ≡ (i2c.master_send (frame cmd_w_int 1 status) c1.bus).0)
        × IsValid c2
  read_events-events_of garbage c v there room =
      let (c1, uc, status) = status_tries i2c k 3 garbage c in
      let (ring1, client1) = ring_of-status_tries 3 garbage c in
      let v1 = IsValid-ring_of c c1 ring1 v in
      let same : events_of c1 ≡ events_of c = ap events_in ring1 in
      let there1 : c1.client ≡ true = client1 ∙ there in
      elim (Bool-cases (status == 0)) [
        | inl e ↦
            let z : status ≡ 0 = ground arith in
            let ring2 = ring_of-clear_int status c1 in
            rw (read_events_lem garbage c, e)
              (
                ap events_in ring2
                    ∙ same
                    ∙ sym (append-nil (events_of c))
                    ∙ ap (λ x. events_of c ++ bits_of 7 x) (sym z),
                bus-clear_int status c1 there1,
                IsValid-ring_of c1 (clear_int i2c status c1) ring2 v1,
              )
        | inr e ↦
            let (c2, status') = events i2c k 7 status c1 in
            let (all, whole, v2) =
              events-events_of 7 status c1 v1 (omega (arith, ap length same)) in
            let ways = way-events 7 status c1 in
            let ring3 = ring_of-clear_int status c2 in
            let there2 : c2.client ≡ true = ap (λ r. r.1) ways ∙ there1 in
            rw (read_events_lem garbage c, e, whole)
              (
                ap events_in ring3 ∙ all ∙ ap (λ l. l ++ bits_of 7 status) same,
                bus-clear_int status c2 there2
                    ∙ ap (λ s. (i2c.master_send (frame cmd_w_int 1 status) s).0)
                        (ap (λ r. r.0) ways),
                IsValid-ring_of c2 (clear_int i2c status c2) ring3 v2,
              )
      ]
