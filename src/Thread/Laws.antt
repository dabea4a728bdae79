-- ===== src/Thread/Laws.antt =====
-- What the `select` loop and `FctThread` guarantee to every class that is a thread.
use gest_aqua.Prelude.{Bool, List, [], arith, false, if◌then◌else◌, inl, inr, leb_ℤ, none, not}
use gest_aqua.Prelude.{pos, refl, some, subst, suc, sym, true, ℕ, ◌+◌, ◌==◌, ◌||◌, ◌∷◌, ◌≡◌, ◌⊎◌}
use gest_aqua.Thread.{CThread, Next, Round, again, failed, fct_thread, leave, ready, round}
use gest_aqua.Thread.{select_loop, set_arret, timeout}

-- A round after which the loop does not go on: a stop was asked for, the pipe is ready, or `select`
-- failed for good.
abbrev pub stops : Round → Bool
stops r =
    not (r.arret == 0)
    || elim (r.select) [ ready is_set ↦ is_set | timeout ↦ false | failed eintr ↦ not eintr ]

-- A round in which the time is up and no stop is asked for.
abbrev pub fires : Round → Bool
fires r = elim (r.select) [ timeout ↦ r.arret_after == 0 | _ ↦ false ]

-- How often the time is up before the loop is stopped.
unfoldable pub live : List Round → ℕ
live [] = 0
live (r ∷ rs) = let rest = live rs in if stops r then 0 else if fires r then suc rest else rest

-- A stop that is asked for before the thread runs does not show in the flag, which `FctThread`
-- clears, but stays in the pipe, so that `select` answers at once; when the body is over the flag is
-- 2, unless the object is deleted.
pub fct_thread-set_arret :
    (t : CThread) (body : CThread → CThread)
    → leb_ℤ (pos 0) t.pipe_w ≡ true
    → let seen = set_arret 0 (set_arret 1 t) in
      (seen.arret ≡ 0)
      × (seen.octets ≡ t.octets + 4)
      × (fct_thread (λ s. s) (λ s _. s) body (set_arret 1 t) ≡ (
          if (set_arret 2 (body seen)).auto_delete then none else some (set_arret 2 (body seen))))
unfolding fct_thread set_arret
fct_thread-set_arret t body h = ground arith

pub Next-cases : (n : Next) → (n ≡ again) ⊎ (n ≡ leave)
Next-cases again = inl refl
Next-cases leave = inr refl

-- What every expiry keeps, the loop keeps.
module _ {S : Type 0} (P : S → Type 0) (unset : Bool) (step : S → S × Next) where
  round_cases :
      (r : Round) (s : S) → ((round unset step r s).0 ≡ s) ⊎ ((round unset step r s).0 ≡ (step s).0)
  unfolding round
  round_cases r s = ground arith

  round-keeps :
      (r : Round) (s : S) → ((s : S) → P s → P (step s).0) → P s → P (round unset step r s).0
  round-keeps r s keep h = elim (round_cases r s) [
    | inl e ↦ subst P (sym e) h
    | inr e ↦ subst P (sym e) (keep s h)
  ]

  pub select_loop-keeps :
      (rounds : List Round) (s : S)
      → ((s : S) → P s → P (step s).0)
      → P s
      → P (select_loop unset step rounds s).0
  unfolding select_loop
  select_loop-keeps [] s keep h = h
  select_loop-keeps (r ∷ rs) s keep h =
      let h1 = round-keeps r s keep h in
      elim (Next-cases (round unset step r s).1) [
        | inl e ↦ rw (e, select_loop) (select_loop-keeps rs (round unset step r s).0 keep h1)
        | inr e ↦ rw (e, select_loop) h1
      ]

-- Whether the loop goes on after so many rounds, when no expiry leaves it.
abbrev pub left_by : List Round → Next
left_by [] = again
left_by (r ∷ rs) = let rest = left_by rs in if stops r then leave else rest

pub select_loop-left_by :
    {S : Type 0} (step : S → S × Next) (rounds : List Round) (s : S)
    → ((s : S) → (step s).1 ≡ again)
    → (select_loop false step rounds s).1 ≡ left_by rounds
unfolding select_loop round
select_loop-left_by step [] s go = refl
select_loop-left_by step (r ∷ rs) s go =
    ground
      (arith, go s, select_loop-left_by step rs s go, select_loop-left_by step rs (step s).0 go)
