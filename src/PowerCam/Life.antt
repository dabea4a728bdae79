-- ===== src/PowerCam/Life.antt =====
-- `I2c_TrameVie_task`: when a life frame that goes unanswered is told to the application, and what
-- `PowerCam_write_i2c` tells of an error.
use gest_aqua.Prelude.{Bool, Bool-cases, List, Option, Option-cases, arith, eq_ℤ, false}
use gest_aqua.Prelude.{if◌then◌else◌, inl, inr, ltb, ltb_ℤ, negsuc, none, pos, refl, set, some}
use gest_aqua.Prelude.{suc, true, u32, zero, ℕ, ℤ, ◌+◌, ◌≡◌, ◌⊎◌}
use gest_aqua.PowerCam.{I2c, Kernel, PowerCam, alarme_hard, pb_trame_vie, to_char}
use gest_aqua.PowerCam.Bus.{send_tries, write_i2c}
use gest_aqua.PowerCam.Ring.{data_in}
use gest_aqua.PowerCam.Tasks.{life_attempt, life_tries, new_err, trame_vie_task}

module _ {S : Type 0} (i2c : I2c S) where
  -- `PowerCam_write_i2c` sends once, whatever `i2c_master_send` answers, and returns 0: the answer is
  -- kept in an `unsigned char`, which is never below 0.
  pub write_i2c_lem :
      (bytes : List ℕ) (s : S) → write_i2c i2c true bytes s ≡ ((i2c.master_send bytes s).0, pos 0)
  unfolding write_i2c send_tries
  write_i2c_lem bytes s = ground arith

-- The values of `err` after a failure.
abbrev IsErr : Kernel → ℤ → Type 0
IsErr k x = (x ≡ to_char k (negsuc 0)) ⊎ (x ≡ to_char k (negsuc 1)) ⊎ (x ≡ to_char k (negsuc 2))

IsErr-sign : (k : Kernel) (x : ℤ) → IsErr k x → ltb_ℤ x (pos 0) ≡ k.signed_char
IsErr-sign k x h = ground arith

IsErr-ne : (k : Kernel) (x : ℤ) → IsErr k x → eq_ℤ x (pos 0) ≡ false
IsErr-ne k x h = ground arith

-- Whether an attempt sets `err`.
abbrev pub failed : Option ℤ → Bool
failed none = false
failed (some e) = true

module _ {S : Type 0} (i2c : I2c S) (k : Kernel) where
  life_attempt-IsErr :
      (c : PowerCam S) (e : ℤ) → (life_attempt i2c k c).1 ≡ some e → IsErr k (to_char k e)
  unfolding life_attempt
  life_attempt-IsErr c e h = ground (arith, h)

  new_err-IsErr :
      (err : ℤ) (c : PowerCam S)
      → IsErr k err
      → IsErr k (new_err i2c k err (life_attempt i2c k c).1)
  unfolding new_err
  new_err-IsErr err c h = elim (Option-cases (life_attempt i2c k c).1) [
    | inl e ↦ rw e h
    | inr (x, e) ↦ rw e (life_attempt-IsErr c x e)
  ]

  life_tries-IsErr :
      (cpt : ℕ) (err : ℤ) (c : PowerCam S) → IsErr k err → IsErr k (life_tries i2c k cpt err c).1
  unfolding life_tries
  life_tries-IsErr zero err c h = h
  life_tries-IsErr (suc cpt) err c h =
      let (c', set) = life_attempt i2c k c in
      let h' = new_err-IsErr err c h in
      elim (Bool-cases (ltb 0 cpt)) [
        | inl e ↦ rw (IsErr-ne k _ h', e) (life_tries-IsErr cpt _ c' h')
        | inr e ↦ rw (IsErr-ne k _ h', e) h'
      ]

  life_tries-first :
      (c : PowerCam S)
      → (life_attempt i2c k c).1 ≡ none
      → life_tries i2c k 3 (pos 0) c ≡ ((life_attempt i2c k c).0, pos 0)
  unfolding life_tries new_err
  life_tries-first c e = rw e refl

  life_tries-failed :
      (c : PowerCam S) (x : ℤ)
      → (life_attempt i2c k c).1 ≡ some x
      → IsErr k (life_tries i2c k 3 (pos 0) c).1
  unfolding life_tries
  life_tries-failed c x e =
      let h' : IsErr k (new_err i2c k (pos 0) (life_attempt i2c k c).1) =
        unfold new_err in rw e (life_attempt-IsErr c x e) in
      rw (IsErr-ne k _ h') (life_tries-IsErr 2 _ _ h')

  -- `I2c_TrameVie_task` makes one attempt when it succeeds, and tells the application nothing. When
  -- the first attempt fails, `err` stays set: where `char` is signed, the alarm of the life frame is
  -- given to the ring of events even if the next attempt succeeds, and where it is not signed the
  -- alarm is never given. The timer of the life frame is set again in each case.
  pub trame_vie_task_lem :
      (jiffies : ℕ) (c : PowerCam S)
      → let c0 = record c { vie_task = false } in
        let (c1, set) = life_attempt i2c k c0 in
        let (c3, err) = life_tries i2c k 3 (pos 0) c0 in
        let told = (data_in k true alarme_hard pb_trame_vie c3).0 in
        trame_vie_task i2c k jiffies c
        ≡ record (if failed set then (if k.signed_char then told else c3) else c1) {
          timer_trame_vie = some (u32 (jiffies + k.hz));
        }
  unfolding trame_vie_task
  trame_vie_task_lem jiffies c =
      let c0 = record c { vie_task = false } in
      elim (Option-cases (life_attempt i2c k c0).1) [
        | inl e ↦ rw (e, life_tries-first c0 e) refl
        | inr (x, e) ↦ rw (e, IsErr-sign k _ (life_tries-failed c0 x e)) refl
      ]
