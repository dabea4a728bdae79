-- ===== src/PowerCam/Rings.antt =====
-- dlgi2c.c: the indices of both rings, and what each of the driver's functions does to them.
use gest_aqua.Prelude.{Bool, List, [], arith, bit_and, eq_ℤ, false, get_or, if-keeps}
use gest_aqua.Prelude.{if◌then◌else◌, ltb_ℤ, negsuc, none, not, pos, refl, set, some, subst, suc}
use gest_aqua.Prelude.{sym, true, u32, u8, zero, ℕ, ℤ, ◌+◌, ◌-◌, ◌/◌, ◌<◌, ◌==◌, ◌^◌, ◌∙◌, ◌∷◌}
use gest_aqua.Prelude.{◌≡◌, ◌⊎◌}
use gest_aqua.PowerCam.{I2c, Kernel, PowerCam, alarme_hard, bouton_g_face_avant, cmd_read}
use gest_aqua.PowerCam.{cmd_w_trame_vie, i2c_read, i2c_write, pb_trame_vie, set_int_code}
use gest_aqua.PowerCam.Bus.{clear_int, receive, send}
use gest_aqua.PowerCam.Ring.{advance, data_in, enqueue, take_data}
use gest_aqua.PowerCam.Tasks.{events, fct_etat_bouton_g, get_etat_bouton_g, interrupt_task}
use gest_aqua.PowerCam.Tasks.{life_attempt, life_tries, new_err, next_valeur, read_events}
use gest_aqua.PowerCam.Tasks.{status_tries, trame_vie_task, watch_line, write_command}

module _ {S : Type 0} where
  -- The indices of the two rings and `data_on`.
  abbrev pub rings : PowerCam S → ℕ × ℕ × Bool × ℕ × ℕ
  rings c = (c.bufr0, c.bufr1, c.data_on, c.bufw0, c.bufw1)

-- An index of a row, or the 255 of the attachment.
abbrev pub IsIndex : ℕ → Type 0
IsIndex i = (i < 10) ⊎ (i ≡ 255)

-- The indices are in range, `data_on` says that something waits to be read, and nothing was read
-- before something was written.
abbrev pub AreSound : ℕ × ℕ × Bool × ℕ × ℕ → Type 0
AreSound (r0, r1, on, w0, w1) =
    IsIndex r0
    × IsIndex r1
    × (on ≡ not (r0 == r1))
    × ((r0 ≡ 255) → r1 ≡ 255)
    × IsIndex w0
    × IsIndex w1

module _ {S : Type 0} where
  abbrev pub IsSound : PowerCam S → Type 0
  IsSound c = AreSound (rings c)

  abbrev IsSoundWith : PowerCam S × ℕ → Type 0
  IsSoundWith o = IsSound o.0

pub advance_range : (k : Kernel) (i : ℕ) → IsIndex i → advance k i < 10
unfolding advance
advance_range k i h = ground arith

module _ {S : Type 0} (i2c : I2c S) (k : Kernel) where
  pub rings-send : (cmd add byte : ℕ) (c : PowerCam S) → rings (send i2c cmd add byte c).0 ≡ rings c
  unfolding send
  rings-send cmd add byte c = refl

  pub rings-receive :
      (addr : ℕ) (buffer : List ℕ) (c : PowerCam S) → rings (receive i2c addr buffer c).0 ≡ rings c
  unfolding receive
  rings-receive addr buffer c = refl

  rings-clear_int : (status : ℕ) (c : PowerCam S) → rings (clear_int i2c status c) ≡ rings c
  unfolding clear_int
  rings-clear_int status c = ground (arith, rings-send 2 1 status c)

  rings-watch_line : (received : ℕ) (c : PowerCam S) → rings (watch_line i2c k received c) ≡ rings c
  unfolding watch_line
  rings-watch_line received c =
      ground (arith, rings-clear_int 0 (record c { nb_int_zero = u8 (c.nb_int_zero + 1) }))

  rings-life_attempt : (c : PowerCam S) → rings (life_attempt i2c k c).0 ≡ rings c
  unfolding life_attempt
  rings-life_attempt c =
      let (c1, sent) = send i2c cmd_w_trame_vie 0 c.valeur_trame_vie c in
      let (c2, got, answer) = receive i2c (cmd_read 60) (0 ∷ []) c1 in
      let next = record c2 { valeur_trame_vie = next_valeur i2c k c2.valeur_trame_vie } in
      let s1 = rings-send cmd_w_trame_vie 0 c.valeur_trame_vie c in
      let s2 = rings-receive (cmd_read 60) (0 ∷ []) c1 in
      let s3 = rings-watch_line (get_or answer 0 0) next in
      let e1 : rings c2 ≡ rings c = s2 ∙ s1 in
      let e2 : rings (watch_line i2c k (get_or answer 0 0) next) ≡ rings c = s3 ∙ e1 in ground arith

  rings-life_tries :
      (n : ℕ) (err : ℤ) (c : PowerCam S) → rings (life_tries i2c k n err c).0 ≡ rings c
  unfolding life_tries
  rings-life_tries zero err c = refl
  rings-life_tries (suc n) err c =
      let (c', set) = life_attempt i2c k c in
      let one = rings-life_attempt c in
      ground (arith, rings-life_tries n (new_err i2c k err set) c')

  rings-status_tries :
      (n status : ℕ) (c : PowerCam S) → rings (status_tries i2c k n status c).0 ≡ rings c
  unfolding status_tries
  rings-status_tries zero status c = refl
  rings-status_tries (suc n) status c =
      let (c', ret, answer) = receive i2c (cmd_read 2) (status ∷ []) c in
      let one = rings-receive (cmd_read 2) (status ∷ []) c in
      ground (arith, rings-status_tries n (get_or answer 0 0) c')

  data_in-IsSound :
      (data1 data2 : ℕ) (c : PowerCam S) → IsSound c → IsSound (data_in k true data1 data2 c).0
  unfolding data_in
  data_in-IsSound data1 data2 c h = let range = advance_range k c.bufr0 h.0 in ground arith

  -- What leaves the rings as they are leaves them sound.
  pub kept : (c d : PowerCam S) → rings d ≡ rings c → IsSound c → IsSound d
  kept c d e h = subst AreSound (sym e) h

  events-IsSound : (n status : ℕ) (c : PowerCam S) → IsSound c → IsSound (events i2c k n status c).0
  unfolding events
  events-IsSound zero status c h = h
  events-IsSound (suc n) status c h =
      let c' = (data_in k true set_int_code (2 ^ n) c).0 in
      let h' = data_in-IsSound set_int_code (2 ^ n) c h in
      let less = bit_and status (255 - 2 ^ n) in
      let ret = (data_in k true set_int_code (2 ^ n) c).1 in
      let taken =
        if-keeps IsSoundWith (ltb_ℤ ret (pos 0)) {x = events i2c k n less c'}
          {y = events i2c k n status c'} (events-IsSound n less c' h')
          (events-IsSound n status c' h') in
      if-keeps IsSoundWith (bit_and status (2 ^ n) == 0) {x = events i2c k n status c}
        (events-IsSound n status c h) taken

  read_events-IsSound :
      (garbage : ℕ) (c : PowerCam S) → IsSound c → IsSound (read_events i2c k garbage c)
  unfolding read_events
  read_events-IsSound garbage c h =
      let (c1, uc, status) = status_tries i2c k 3 garbage c in
      let h1 = kept c c1 (rings-status_tries 3 garbage c) h in
      let two : (PowerCam S × ℕ) = if status == 0 then (c1, status) else events i2c k 7 status c1 in
      let h2 =
        if-keeps IsSoundWith (status == 0) {x = (c1, status)} {y = events i2c k 7 status c1} h1
          (events-IsSound 7 status c1 h1) in
      let (c2, status') = two in
      let some_read = clear_int i2c status' c2 in
      let none_read = clear_int i2c 0 c1 in
      if-keeps IsSound (not (eq_ℤ (pos uc) (negsuc 0))) {x = some_read} {y = none_read}
        (kept c2 some_read (rings-clear_int status' c2) h2)
        (kept c1 none_read (rings-clear_int 0 c1) h1)

  write_command-IsSound : (c : PowerCam S) → IsSound c → IsSound (write_command i2c k c)
  unfolding write_command
  write_command-IsSound c h = let range = advance_range k c.bufw1 h.5 in ground arith

  pub interrupt_task-IsSound :
      (garbage : ℕ) (c : PowerCam S) → IsSound c → IsSound (interrupt_task i2c k garbage c)
  unfolding interrupt_task
  interrupt_task-IsSound garbage c h =
      let started = record c { int_task = false } in
      let r = read_events-IsSound garbage started h in
      let w = write_command-IsSound started h in
      let command = write_command i2c k started in
      let other_mode = if c.mode == i2c_write then command else started in
      if-keeps IsSound (c.mode == i2c_read) {x = read_events i2c k garbage started} {y = other_mode}
        r (if-keeps IsSound (c.mode == i2c_write) {x = command} {y = started} w h)

  pub trame_vie_task-IsSound :
      (jiffies : ℕ) (c : PowerCam S) → IsSound c → IsSound (trame_vie_task i2c k jiffies c)
  unfolding trame_vie_task
  trame_vie_task-IsSound jiffies c h =
      let start = record c { vie_task = false } in
      let c1 = (life_tries i2c k 3 (pos 0) start).0 in
      let h1 = kept start c1 (rings-life_tries 3 (pos 0) start) h in
      let told = data_in-IsSound alarme_hard pb_trame_vie c1 h1 in
      let alarm = (data_in k true alarme_hard pb_trame_vie c1).0 in
      let err = (life_tries i2c k 3 (pos 0) start).1 in
      if-keeps IsSound (ltb_ℤ err (pos 0)) {x = alarm} {y = c1} told h1

  pub fct_etat_bouton_g-IsSound :
      (jiffies reg : ℕ) (c : PowerCam S)
      → IsSound c
      → IsSound (fct_etat_bouton_g i2c k jiffies reg c)
  unfolding fct_etat_bouton_g get_etat_bouton_g
  fct_etat_bouton_g-IsSound jiffies reg c h =
      let etat = bit_and (reg / 2 ^ 2) 1 in
      let c1 = record c { timer_bouton = none; etat_bouton_g = etat } in
      let told = (data_in k true alarme_hard bouton_g_face_avant c1).0 in
      let h1 = data_in-IsSound alarme_hard bouton_g_face_avant c1 h in
      let woken = record told { wakes = told.wakes + 1 } in
      let c2 = if c1.cpt_poll == 0 then woken else c1 in
      let h2 = if-keeps IsSound (c1.cpt_poll == 0) {x = woken} {y = c1} h1 h in
      let up = record told { irq_bouton = true; wakes = told.wakes + 1 } in
      let down = record c2 {
        timer_bouton = some (u32 (jiffies + k.hz / 100));
        cpt_poll = u32 (c2.cpt_poll + 1);
      } in
      if-keeps IsSound (not (etat == 0)) {x = up} {y = down} h1 h2

  pub take_data-IsSound :
      (fault : Bool) (nbytes : ℕ) (c c' : PowerCam S) (ret : ℤ) (out : List ℕ)
      → IsSound c
      → take_data k fault nbytes c ≡ some (c', ret, out)
      → IsSound c'
  unfolding take_data
  take_data-IsSound fault nbytes c c' ret out h e =
      let range = advance_range k c.bufr1 h.1 in ground arith

  pub enqueue-IsSound :
      (bytes : List ℕ) (c : PowerCam S) → IsSound c → IsSound (enqueue k bytes c).0
  unfolding enqueue
  enqueue-IsSound bytes c h = let range = advance_range k c.bufw0 h.4 in ground arith
