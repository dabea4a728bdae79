-- ===== src/Tests/Driver.antt =====
-- The theorems on the driver, on a board.
use gest_aqua.Prelude.{List, [], arith, bit, false, if◌then◌else◌, inr, negsuc, none, pos, refl}
use gest_aqua.Prelude.{set, some, true, ℕ, ◌+◌, ◌<◌, ◌==◌, ◌∷◌, ◌≡◌, ◌≢◌}
use gest_aqua.PowerCam.{I2c, PowerCam, frame}
use gest_aqua.PowerCam.Commands.{is_open-releases-opens, opens, releases}
use gest_aqua.PowerCam.Delayed.{enqueue-irq}
use gest_aqua.PowerCam.Device.{Attach, poll}
use gest_aqua.PowerCam.Ioctl.{ioctl, set_etat_led}
use gest_aqua.PowerCam.Life.{failed, trame_vie_task_lem}
use gest_aqua.PowerCam.Masks.{allow, calls, forbid, ioctl-valid_bit, valid_bit}
use gest_aqua.PowerCam.Overrun.{read_events-events_of, take_data-overrun}
use gest_aqua.PowerCam.Queue.{IsValid, data_in-events_of, events_of, take_data-events_of}
use gest_aqua.PowerCam.Ring.{advance, data_in, enqueue, take_data}
use gest_aqua.PowerCam.Rings.{IsSound}
use gest_aqua.PowerCam.Sent.{Agrees, Move, queued, ring_moves, ring_moves-queue_moves, worked}
use gest_aqua.PowerCam.Settings.{ioctl-setting_call, led}
use gest_aqua.PowerCam.Steps.{Reach-take_data, here, irq_step, then_step, work_step}
use gest_aqua.PowerCam.Tasks.{i2c_irq, interrupt_task, life_attempt, life_tries, read_events}
use gest_aqua.PowerCam.Tasks.{status_tries, trame_vie_task}
use gest_aqua.Tests.{arm, board, recorder}

data_in-events_of_example :
    let (c', ret) = data_in arm true 5 2 (board 3 2) in
    IsValid c' × ((ret ≡ pos 0) × (events_of c' ≡ (6, 7) ∷ (5, 2) ∷ []))
unfolding data_in advance
data_in-events_of_example = data_in-events_of arm 5 2 (board 3 2) (omega arith, omega arith, refl)

take_data-events_of_example :
    (c' : PowerCam (List (List ℕ))) × (out : List ℕ) × (take_data arm false 2 (board 3 2)
      ≡ some (c', pos 2, out))
    × IsValid c'
    × ((out ≡ 6 ∷ 7 ∷ []) × (events_of c' ≡ []))
take_data-events_of_example = take_data-events_of arm (board 3 2) (omega arith, omega arith, refl)

take_data-overrun_example :
    let (c1, ret) = data_in arm true 5 2 (board 9 255) in
    (c2 : PowerCam (List (List ℕ))) × (ret ≡ pos 0)
    × (take_data arm false 2 c1 ≡ some (c2, pos 2, 5 ∷ 2 ∷ []))
    × (c2.data_on ≡ false)
    × (events_of c2 ≡ [])
take_data-overrun_example = take_data-overrun arm 5 2 (board 9 255) refl refl

-- The status of a board that asks for attention with the bits 128 and 2.
abbrev asking : I2c (List (List ℕ))
asking = record {
  master_send = λ bytes s. (bytes ∷ s, pos 0);
  master_recv = λ b s. (s, pos 0, 130 ∷ []);
}

read_events-events_of_example :
    let c2 = read_events asking arm 0 (board 3 2) in
    (events_of c2 ≡ (6, 7) ∷ (5, 2) ∷ [])
    × (c2.bus ≡ frame 2 1 130 ∷ (150 ∷ 1 ∷ 2 ∷ []) ∷ [])
    × IsValid c2
unfolding status_tries
read_events-events_of_example =
    read_events-events_of asking arm 0 (board 3 2) (omega arith, omega arith, refl) refl
      (omega arith)

-- A command of two bytes, one of one byte and one of twenty-one, with two works between.
abbrev moves : List Move
moves =
    queued (1 ∷ 2 ∷ [])
    ∷ queued (3 ∷ [])
    ∷ worked 0
    ∷ queued (
        0 ∷ 1 ∷ 2 ∷ 3 ∷ 4 ∷ 5 ∷ 6 ∷ 7 ∷ 8 ∷ 9 ∷ 10 ∷ 11 ∷ 12 ∷ 13 ∷ 14 ∷ 15 ∷ 16 ∷ 17 ∷ 18 ∷ 19 ∷ 20
        ∷ [])
    ∷ worked 0
    ∷ queued (4 ∷ [])
    ∷ []

-- A board whose last command was sent from row 9.
abbrev idle_board : PowerCam (List (List ℕ))
idle_board = record (board 3 2) { mode = 2; bufw0 = 9; bufw1 = 9 }

ring_moves-queue_moves_example :
    Agrees (ring_moves recorder arm moves idle_board) ((4 ∷ []) ∷ [], (3 ∷ []) ∷ (1 ∷ 2 ∷ []) ∷ [])
ring_moves-queue_moves_example =
    ring_moves-queue_moves recorder arm moves idle_board []
      (omega arith, omega arith, refl, refl, refl)

enqueue-irq_example :
    let c1 = (enqueue arm (1 ∷ 2 ∷ []) (board 3 2)).0 in
    let c2 = interrupt_task recorder arm 0 (i2c_irq recorder arm c1) in
    let c3 = (enqueue arm (3 ∷ []) c2).0 in
    let c4 = interrupt_task recorder arm 0 c3 in
    (c2.bufw0 ≡ advance arm 255)
    × (c2.bufw1 ≡ 255)
    × ((c2.bufw0 == c2.bufw1) ≡ false)
    × (c2.int_task ≡ false)
    × (c3.int_task ≡ true)
    × (c4.bus ≡ (1 ∷ 2 ∷ []) ∷ c2.bus)
    × ((c4.bufw0 == c4.bufw1) ≡ false)
    × (c4.int_task ≡ false)
enqueue-irq_example =
    enqueue-irq recorder arm 0 0 (1 ∷ 2 ∷ []) (3 ∷ []) (board 3 2) refl refl (inr refl)
      (omega arith) (omega arith)

trame_vie_task_lem_example :
    let c0 = record (board 3 2) { vie_task = false } in
    let (c1, set) = life_attempt recorder arm c0 in
    let (c3, err) = life_tries recorder arm 3 (pos 0) c0 in
    trame_vie_task recorder arm 7 (board 3 2)
    ≡ record (if failed set then c3 else c1) { timer_trame_vie = some 107 }
trame_vie_task_lem_example = trame_vie_task_lem recorder arm 7 (board 3 2)

is_open-releases-opens_example :
    (releases 2 (opens 300 (record (board 3 2) { is_open = 0 }))).is_open ≡ 42
is_open-releases-opens_example =
    is_open-releases-opens 300 2 (record (board 3 2) { is_open = 0 }) refl

abbrev answers : Attach
answers = record { kmalloc_ok = true; attach_client = pos 0; request_irq = pos 0; gpio_data = 0 }

-- A board just attached, which asks for attention, and the same after the work has run.
abbrev fresh : PowerCam (List (List ℕ))
fresh = board 255 255

Reach-take_data_example :
    let d = interrupt_task recorder arm 0 (i2c_irq recorder arm fresh) in
    IsSound d
    × (poll true d ≡ (if d.bufr0 == d.bufr1 then pos 0 else pos 65))
    × (take_data arm false 2 d ≢ none)
unfolding i2c_irq
Reach-take_data_example =
    Reach-take_data recorder arm false 2 (refl, refl, refl, refl, refl, refl, refl, refl, refl)
      (then_step (then_step here (irq_step fresh refl))
        (work_step 0 (i2c_irq recorder arm fresh) refl))
      (omega arith)

-- A bus that refuses everything.
abbrev dead_bus : I2c ℕ
dead_bus = record {
  master_send = λ bytes s. (s + 1, negsuc 4);
  master_recv = λ b s. (s, negsuc 4, b);
}

-- The board on that bus, which counts what it refuses.
abbrev on_dead_bus : PowerCam ℕ
on_dead_bus = record {
  client = true;
  is_open = 1;
  mode = 1;
  buf_read = λ a. 0;
  bufr0 = 255;
  bufr1 = 255;
  data_on = false;
  buf_write = λ r. [];
  bufw0 = 255;
  bufw1 = 255;
  int_valide = 0;
  cpt_clear = 0;
  old_cpt_clear = 0;
  timer_trame_vie = none;
  valeur_trame_vie = 0;
  nb_int_zero = 0;
  etat_bouton_g = 0;
  cpt_poll = 0;
  timer_bouton = none;
  irq_bouton = false;
  irq_carte = true;
  int_task = false;
  vie_task = false;
  wakes = 0;
  bus = 0;
}

ioctl-setting_call_example :
    ioctl dead_bus arm true 0 0 (set_etat_led (some (2, 1))) on_dead_bus
    ≡ some (record on_dead_bus { bus = 1 }, pos 0, [])
ioctl-setting_call_example = ioctl-setting_call dead_bus arm 0 0 (led 2 1) on_dead_bus refl refl

ioctl-valid_bit_example :
    (c' : PowerCam (List (List ℕ))) × (calls recorder arm 0 0
        (allow 12 ∷ forbid 4 ∷ allow 1 ∷ [])
        (board 3 2)
      ≡ some (c', pos 0 ∷ pos 0 ∷ pos 0 ∷ []))
    × ((j : ℕ)
        → j < 8
        → bit j c'.int_valide ≡ valid_bit j (allow 12 ∷ forbid 4 ∷ allow 1 ∷ []) (bit j 0))
    × (c'.bus ≡ frame 2 0 9 ∷ frame 2 0 8 ∷ frame 2 0 12 ∷ [])
ioctl-valid_bit_example =
    ioctl-valid_bit recorder arm 0 0 (allow 12 ∷ forbid 4 ∷ allow 1 ∷ []) (board 3 2) refl refl
      (omega arith, (omega arith, (omega arith, tt)))
