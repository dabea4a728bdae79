-- ===== src/PowerCam/Attached.antt =====
-- `i2cPowerCam_attach`: the state that each of its ends leaves.
use gest_aqua.Prelude.{Bool-cases, List, [], arith, eq_ℤ, false, inl, inr, pos, refl, true, ℕ}
use gest_aqua.Prelude.{◌==◌, ◌∙◌, ◌∷◌, ◌≡◌, ◌⊎◌}
use gest_aqua.PowerCam.{I2c, PowerCam, cmd_read, cmd_w_bank1, cmd_w_int}
use gest_aqua.PowerCam.Bus.{clear_int, receive, send}
use gest_aqua.PowerCam.Device.{Attach, attach, reset}
use gest_aqua.PowerCam.Ring.{error}

module _ {S : Type 0} (i2c : I2c S) where
  client-send : (cmd add byte : ℕ) (c : PowerCam S) → (send i2c cmd add byte c).0.client ≡ c.client
  unfolding send
  client-send cmd add byte c = refl

  client-receive :
      (addr : ℕ) (buffer : List ℕ) (c : PowerCam S)
      → (receive i2c addr buffer c).0.client ≡ c.client
  unfolding receive
  client-receive addr buffer c = refl

  client-clear_int : (status : ℕ) (c : PowerCam S) → (clear_int i2c status c).client ≡ c.client
  unfolding clear_int
  client-clear_int status c = ground (arith, client-send cmd_w_int 1 status c)

  irq_carte-send :
      (cmd add byte : ℕ) (c : PowerCam S) → (send i2c cmd add byte c).0.irq_carte ≡ c.irq_carte
  unfolding send
  irq_carte-send cmd add byte c = refl

  irq_carte-clear_int :
      (status : ℕ) (c : PowerCam S) → (clear_int i2c status c).irq_carte ≡ c.irq_carte
  unfolding clear_int
  irq_carte-clear_int status c = ground (arith, irq_carte-send cmd_w_int 1 status c)

  -- The board attached: the client and its interrupt are there, both rings are empty, with the
  -- indices of the attachment, nothing waits to be read, and the life value and its count are 0.
  abbrev pub IsFresh : PowerCam S → Type 0
  IsFresh c =
      (c.client ≡ true)
      × (c.irq_carte ≡ true)
      × (c.bufr0 ≡ 255)
      × (c.bufr1 ≡ 255)
      × (c.bufw0 ≡ 255)
      × (c.bufw1 ≡ 255)
      × (c.data_on ≡ false)
      × (c.valeur_trame_vie ≡ 0)
      × (c.nb_int_zero ≡ 0)

  IsFresh-reset : (gpio : ℕ) (c : PowerCam S) → c.client ≡ true → IsFresh (reset i2c gpio c)
  unfolding reset
  IsFresh-reset gpio c h =
      let c0 = record c { irq_carte = true; cpt_clear = 0; old_cpt_clear = 0 } in
      (
        client-clear_int 0 c0 ∙ h,
        irq_carte-clear_int 0 c0,
        refl,
        refl,
        refl,
        refl,
        refl,
        refl,
        refl,
      )

  -- `i2cPowerCam_attach` returns 0 and leaves the board attached, or an error and no client, or, for
  -- an adapter that is not number 1, an error and everything as it was.
  pub attach_lem :
      (os : Attach) (id : ℕ) (c : PowerCam S)
      → let (c', ret) = attach i2c os id c in
        ((ret ≡ pos 0) × IsFresh c')
        ⊎ ((eq_ℤ ret (pos 0) ≡ false) × (c'.client ≡ false))
        ⊎ (((id == 1) ≡ false) × (ret ≡ error 12) × (c' ≡ c))
  unfolding attach
  attach_lem os id c = elim (Bool-cases (id == 1)) [
    | inr e ↦ rw e (inr (inr (refl, refl, refl)))
    | inl e ↦ elim (Bool-cases os.kmalloc_ok) [
      | inr f ↦ rw (e, f) (inr (inl (refl, refl)))
      | inl f ↦ elim (Bool-cases (eq_ℤ os.attach_client (pos 0))) [
        | inr g ↦ rw (e, f, g) (inr (inl (g, refl)))
        | inl g ↦
            let c1 = (receive i2c (cmd_read 0) (0 ∷ []) (record c { client = true })).0 in
            let c2 = (send i2c cmd_w_bank1 8 0 c1).0 in
            let there : c2.client ≡ true =
              client-send cmd_w_bank1 8 0 c1
              ∙ client-receive (cmd_read 0) (0 ∷ []) (record c { client = true }) in
            elim (Bool-cases (eq_ℤ os.request_irq (pos 0))) [
              | inr k ↦ rw (e, f, g, k) (inr (inl (k, refl)))
              | inl k ↦ rw (e, f, g, k) (inl (refl, IsFresh-reset os.gpio_data c2 there))
            ]
      ]
    ]
  ]
