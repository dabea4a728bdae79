-- ===== src/PowerCam/Delayed.antt =====
-- A command of the application and an interrupt of the board that comes before the command is sent:
-- the two share `mode` and the one work.
use gest_aqua.Prelude.{Bool, List, [], ap, arith, bit_and, false, get_or, length, refl, suc, sym}
use gest_aqua.Prelude.{true, zero, ℕ, ◌-◌, ◌<◌, ◌==◌, ◌^◌, ◌∙◌, ◌∷◌, ◌≡◌, ◌≤◌, ◌⊎◌}
use gest_aqua.PowerCam.{I2c, Kernel, PowerCam, cmd_read, put, set_int_code}
use gest_aqua.PowerCam.Bus.{clear_int, receive, send}
use gest_aqua.PowerCam.Commands.{enqueue_lem, interrupt_task-write, put_self, write_command_lem}
use gest_aqua.PowerCam.Ring.{advance, data_in, enqueue}
use gest_aqua.PowerCam.Tasks.{events, i2c_irq, interrupt_task, read_events, status_tries}

module _ {S : Type 0} where
  -- What the driver knows of the commands.
  abbrev pub commands : PowerCam S → ℕ × ℕ × ℕ × Bool × Bool × (ℕ → List ℕ)
  commands c = (c.bufw0, c.bufw1, c.mode, c.int_task, c.client, c.buf_write)

module _ {S : Type 0} (i2c : I2c S) (k : Kernel) where
  commands-clear_int :
      (status : ℕ) (c : PowerCam S) → commands (clear_int i2c status c) ≡ commands c
  unfolding clear_int send
  commands-clear_int status c = ground arith

  commands-data_in :
      (data1 data2 : ℕ) (c : PowerCam S) → commands (data_in k true data1 data2 c).0 ≡ commands c
  unfolding data_in
  commands-data_in data1 data2 c = ground arith

  commands-status_tries :
      (n status : ℕ) (c : PowerCam S) → commands (status_tries i2c k n status c).0 ≡ commands c
  unfolding status_tries receive
  commands-status_tries zero status c = refl
  commands-status_tries (suc n) status c =
      let (c', ret, answer) = receive i2c (cmd_read 2) (status ∷ []) c in
      ground (arith, commands-status_tries n (get_or answer 0 0) c')

  commands-events :
      (n status : ℕ) (c : PowerCam S) → commands (events i2c k n status c).0 ≡ commands c
  unfolding events
  commands-events zero status c = refl
  commands-events (suc n) status c =
      let c' = (data_in k true set_int_code (2 ^ n) c).0 in
      let one = commands-data_in set_int_code (2 ^ n) c in
      let full = commands-events n (bit_and status (255 - 2 ^ n)) c' in
      let stored = commands-events n status c' in
      let skipped = commands-events n status c in ground arith

  commands-read_events :
      (garbage : ℕ) (c : PowerCam S) → commands (read_events i2c k garbage c) ≡ commands c
  unfolding read_events
  commands-read_events garbage c =
      let (c1, uc, status) = status_tries i2c k 3 garbage c in
      let first = commands-status_tries 3 garbage c in
      let (c2, status') = events i2c k 7 status c1 in
      let second = commands-events 7 status c1 in
      ground (
        arith,
        commands-clear_int status' c2,
        commands-clear_int status c1,
        commands-clear_int 0 c1,
      )

  commands-irq :
      (garbage : ℕ) (c : PowerCam S)
      → commands (interrupt_task i2c k garbage (i2c_irq i2c k c))
        ≡ commands (record c { mode = 1; int_task = false })
  unfolding interrupt_task i2c_irq
  commands-irq garbage c = commands-read_events garbage (record c { mode = 1; int_task = false })

  -- Two rows further on is neither the row nor the next one.
  advance_twice :
      (i : ℕ)
      → (i < 10) ⊎ (i ≡ 255)
      → ((advance k (advance k i) == i) ≡ false)
        × ((advance k i == i) ≡ false)
        × ((advance k i == advance k (advance k i)) ≡ false)
  unfolding advance
  advance_twice i h = (ground arith, ground arith, ground arith)

  put_other : {A : Type 0} (i j : ℕ) (v : A) (m : ℕ → A) → (j == i) ≡ false → put i v m j ≡ m j
  put_other i j v m h = rw h refl

  -- A command given to a ring that holds one command already: its work sends the older one.
  interrupt_task-later :
      (garbage i : ℕ) (bytes later : List ℕ) (rows0 : ℕ → List ℕ) (c : PowerCam S)
      → (i < 10) ⊎ (i ≡ 255)
      → commands c ≡ (advance k i, i, 1, false, true, rows0)
      → rows0 (advance k i) ≡ length bytes ∷ bytes
      → length later ≤ 20
      → let c' = interrupt_task i2c k garbage (enqueue k later c).0 in
        ((enqueue k later c).0.int_task ≡ true)
        × (c'.bus ≡ (i2c.master_send bytes c.bus).0)
        × ((c'.bufw0 == c'.bufw1) ≡ false)
        × (c'.int_task ≡ false)
  interrupt_task-later garbage i bytes later rows0 c range known row short =
      let j = advance k i in
      let (skip, moved, apart) = advance_twice i range in
      let apart2 : (advance k j == j) ≡ false = ground arith in
      let newest : c.bufw0 ≡ j = ap (λ t. t.0) known in
      let oldest : c.bufw1 ≡ i = ap (λ t. t.1) known in
      let there : c.client ≡ true = ap (λ t. t.4) known in
      let next : advance k c.bufw1 ≡ j = ap (advance k) oldest in
      let free : (advance k c.bufw0 == c.bufw1) ≡ false = rw (newest, oldest) skip in
      let rows = put (advance k c.bufw0) (length later ∷ later) c.buf_write in
      let c3 = record c {
        bufw0 = advance k c.bufw0;
        buf_write = rows;
        mode = 2;
        int_task = true;
      } in
      let kept : rows (advance k c.bufw1) ≡ length bytes ∷ bytes =
        rw (next, newest)
          (put_other (advance k j) j (length later ∷ later) c.buf_write apart
            ∙ ap (λ t. t.5 j) known
            ∙ row) in
      let sent = write_command_lem i2c k bytes (record c3 { int_task = false }) there free kept in
      let two : (advance k c.bufw0 == advance k c.bufw1) ≡ false = rw (newest, next) apart2 in
      rw (enqueue_lem i2c k later c free short, interrupt_task-write i2c k garbage c3 refl, sent)
        (refl, refl, two, refl)

  -- A command is queued on a board with no other, and the board asks for attention before the work
  -- has run. The work takes the mode of the interrupt: it leaves the command in the ring, with the
  -- indices as the command left them, and no work is queued. The command that comes next queues a
  -- work, which sends the first command, and the ring stays one command behind. The commands have at most twenty bytes, the board is there and the
  -- indices are those of rows, or the 255 of the attachment.
  pub enqueue-irq :
      (g g' : ℕ) (bytes later : List ℕ) (c : PowerCam S)
      → c.client ≡ true
      → c.bufw0 ≡ c.bufw1
      → (c.bufw0 < 10) ⊎ (c.bufw0 ≡ 255)
      → length bytes ≤ 20
      → length later ≤ 20
      → let c1 = (enqueue k bytes c).0 in
        let c2 = interrupt_task i2c k g (i2c_irq i2c k c1) in
        let c3 = (enqueue k later c2).0 in
        let c4 = interrupt_task i2c k g' c3 in
        (c2.bufw0 ≡ advance k c.bufw0)
        × (c2.bufw1 ≡ c.bufw1)
        × ((c2.bufw0 == c2.bufw1) ≡ false)
        × (c2.int_task ≡ false)
        × (c3.int_task ≡ true)
        × (c4.bus ≡ (i2c.master_send bytes c2.bus).0)
        × ((c4.bufw0 == c4.bufw1) ≡ false)
        × (c4.int_task ≡ false)
  enqueue-irq g g' bytes later c there empty range short short' =
      let i = advance k c.bufw0 in
      let (skip, moved, apart) = advance_twice c.bufw0 range in
      let first = enqueue_lem i2c k bytes c (rw (sym empty) moved) short in
      let c1 = record c {
        bufw0 = i;
        buf_write = put i (length bytes ∷ bytes) c.buf_write;
        mode = 2;
        int_task = true;
      } in
      let c2 = interrupt_task i2c k g (i2c_irq i2c k c1) in
      let known : commands c2 ≡ (i, c.bufw0, 1, false, true, c1.buf_write) =
        rw (commands-irq g c1, empty, there) refl in
      let newest = ap (λ t. t.0) known in
      let oldest : c2.bufw1 ≡ c.bufw1 = ap (λ t. t.1) known ∙ empty in
      let left : (c2.bufw0 == c2.bufw1) ≡ false = ap (λ t. t.0 == t.1) known ∙ moved in
      let idle : c2.int_task ≡ false = ap (λ t. t.3) known in
      let row = put_self i (length bytes ∷ bytes) c.buf_write in
      let (asked, sent, behind, idle_again) =
        interrupt_task-later g' c.bufw0 bytes later c1.buf_write c2 range known row short' in
      rw first (newest, oldest, left, idle, asked, sent, behind, idle_again)
