-- ===== src/Soleil/Late.antt =====
-- A lamp on the built-in curve whose rounds come late, in exact arithmetic: `select` waits for the
-- interval at least.
use gest_aqua.Prelude.{List, [], ap, ap₂, arith, dec_lt, eq_ℤ, false, if◌then◌else◌, inl, inr}
use gest_aqua.Prelude.{negsuc, pos, refl, some, suc, sym, true, zero, ℕ, ◌&&◌, ◌+ℤ◌, ◌+◌, ◌<◌}
use gest_aqua.Prelude.{◌∙◌, ◌∷◌, ◌≡◌, ◌≤◌, ◌⊎◌}
use gest_aqua.Config.Curve.{Span, seg_at, value_at}
use gest_aqua.Config.Init.{soleil_profil}
use gest_aqua.Double.Exact.{Ratio, exact}
use gest_aqua.Pwm.{PwmGpio, i_start, set_rapport}
use gest_aqua.Soleil.{Soleil, follow, gerer_courbe, leave_segment, soleil_tick, thread_soleil}
use gest_aqua.Soleil.Followed.{Follows, duty_at, dx_lem, follow-Follows, gerer_courbe_kept}
use gest_aqua.Soleil.Followed.{haut_of, leave-follow, waiting-Follows}
use gest_aqua.Soleil.Laws.{heures, pwm-leave_segment}
use gest_aqua.Soleil.Rounds.{expiries, last_of, offsets, select_loop-expires}
use gest_aqua.Soleil.Segments.{Span-later, end_of, intervalle, is_last, seg_at-Timed, segment_at}
use gest_aqua.Soleil.Segments.{segment_at-Span}
use gest_aqua.Soleil.Values.{add-mul-value_at, seg_at_lem}
use gest_aqua.Thread.{Os, again, select_loop}
use gest_aqua.Timer.{set_duree}

-- The duty that the PWM keeps of the line of a segment, also past its end.
abbrev pub line_duty : ℕ → ℕ → Ratio
line_duty k m =
    let v = value_at (seg_at k) m in
    if exact.lt (exact.of_ℤ (pos 0)) v && exact.lt v (exact.of_ℤ (pos 100))
    then v
    else exact.tenths (pos 500)

-- A round at `m` that was to come in the segment of the round before, at `p`, and comes after its end.
abbrev pub IsLate : ℕ → ℕ → Type 0
IsLate p m = (p + intervalle (segment_at p) < end_of (segment_at p)) × (end_of (segment_at p) ≤ m)

-- What a round at `m` after one at `p` shows.
abbrev pub Shows : ℕ → ℕ → Soleil Ratio → Type 0
Shows p m t =
    (t.pwm.rapport ≡ duty_at m) ⊎ (IsLate p m × (t.pwm.rapport ≡ line_duty (segment_at p) m))

rapport-set_rapport :
    (k m : ℕ) (p : PwmGpio Ratio)
    → (set_rapport exact (value_at (seg_at k) m) p).rapport ≡ line_duty k m
unfolding set_rapport
rapport-set_rapport k m p = refl

-- What the last round of some shows.
abbrev pub ShowsLast : ℕ → ℕ → List ℕ → Soleil Ratio → Type 0
ShowsLast p m [] t = Shows p m t
ShowsLast p m (x ∷ xs) t = ShowsLast m x xs t

-- Rounds that come one after another, before 20 h.
abbrev pub Rising : ℕ → List ℕ → Type 0
Rising n [] = n < 43200
Rising n (m ∷ ms) = (n < 43200) × (n ≤ m) × Rising m ms

Rising-lt : (n : ℕ) (ns : List ℕ) → Rising n ns → n < 43200
Rising-lt n [] h = h
Rising-lt n (m ∷ ms) (h, _, _) = h

-- A segment is left at a round past its end.
late-is_last : (k p m : ℕ) → Span k p → end_of k ≤ m → is_last k m ≡ true
unfolding soleil_profil ◌+ℤ◌
late-is_last zero p m h le = ground arith
late-is_last (suc zero) p m h le = ground arith
late-is_last (suc (suc zero)) p m h le = ground arith
late-is_last (suc (suc (suc zero))) p m h le = ground arith
late-is_last (suc (suc (suc (suc zero)))) p m h le = ground arith
late-is_last (suc (suc (suc (suc (suc zero))))) p m h le = ground arith
late-is_last (suc (suc (suc (suc (suc (suc zero)))))) p m h le = ground arith
late-is_last (suc (suc (suc (suc (suc (suc (suc zero))))))) p m h le = ground arith
late-is_last (suc (suc (suc (suc (suc (suc (suc (suc k)))))))) p m h le = absurd h

module _ (period : ℕ) where
  -- A lamp after a round at `p`, in time or late.
  abbrev Holds : ℕ → Soleil Ratio → Type 0
  Holds p s =
      (s.param ≡ soleil_profil exact)
      × ((s.pwm.usec_period ≡ period) × (s.pwm.timer.tps_usec ≡ haut_of period s.pwm.rapport))
      × ((s.index ≡ negsuc 0)
          ⊎ (k : ℕ) × (s.index ≡ pos k)
            × Span k p
            × (p + intervalle (segment_at p) < end_of k)
            × (s.intervalle_x ≡ intervalle (segment_at p)))

  Follows-Holds : (m : ℕ) (s : Soleil Ratio) → Follows period m s → Holds m s
  Follows-Holds m s (ep, (r, same, tps), ex, inl e) =
      (ep, (same, tps ∙ ap (haut_of period) (sym r)), inl e)
  Follows-Holds m s (ep, (r, same, tps), ex, inr (k, ei, span, more)) =
      (ep, (same, tps ∙ ap (haut_of period) (sym r)), inr (k, ei, span, more, ex))

  waiting-Holds :
      (m : ℕ) (s : Soleil Ratio)
      → m < 43200
      → s.param ≡ soleil_profil exact
      → s.index ≡ negsuc 0
      → s.pwm.usec_period ≡ period
      → (t : Soleil Ratio) × (gerer_courbe exact (pos (28800 + m)) s ≡ some t)
        × Holds m t
        × (t.pwm.rapport ≡ duty_at m)
  waiting-Holds m s h ep ei same =
      let (t, e, f) = waiting-Follows period m s h ep ei same in (t, e, Follows-Holds m t f, f.1.0)

  -- A round past the end of the segment in force.
  stale :
      (k p m : ℕ) (s : Soleil Ratio)
      → Span k p
      → end_of k ≤ m
      → s.param ≡ soleil_profil exact
      → s.index ≡ pos k
      → s.pwm.usec_period ≡ period
      → (t : Soleil Ratio) × (gerer_courbe exact (pos (28800 + m)) s ≡ some t)
        × Holds m t
        × (t.pwm.rapport ≡ line_duty k m)
  unfolding set_rapport set_duree
  stale k p m s span le ep ei same =
      let (a, b, affine_k, in_array) = seg_at_lem k p span in
      let s1 = record s { dx = heures exact (pos (28800 + m)) s } in
      let t = leave_segment exact (pos (28800 + m)) (seg_at k) (follow exact (seg_at k) s1) in
      let (tp, tx, ti) = leave-follow (pos (28800 + m)) (seg_at k) s1 a b affine_k in
      let value : exact.add (exact.mul a s1.dx) b ≡ value_at (seg_at k) m =
        ap (λ v. exact.add (exact.mul a v) b) (dx_lem m s ep)
        ∙ add-mul-value_at (seg_at k) m a b (pos m) affine_k refl in
      let lit : t.pwm ≡ set_rapport exact (value_at (seg_at k) m) s.pwm =
        pwm-leave_segment exact (pos (28800 + m)) (seg_at k) s1 a b affine_k
        ∙ ap (λ v. set_rapport exact v s.pwm) value in
      (
        t,
        gerer_courbe_kept (pos (28800 + m)) s k (seg_at k) ei (rw ep in_array),
        (
          tp ∙ ep,
          (
            ap (λ (q : PwmGpio Ratio). q.usec_period) lit ∙ same,
            ap (λ (q : PwmGpio Ratio). q.timer.tps_usec) lit
                ∙ ap₂ haut_of same (ap (λ (q : PwmGpio Ratio). q.rapport) (sym lit)),
          ),
          inl (ti ∙ rw (late-is_last k p m span le) refl),
        ),
        ap (λ (q : PwmGpio Ratio). q.rapport) lit ∙ rapport-set_rapport k m s.pwm,
      )

  -- A round at `m` after one at `p`.
  step :
      (p m : ℕ) (s : Soleil Ratio)
      → Holds p s
      → p ≤ m
      → m < 43200
      → (t : Soleil Ratio) × (gerer_courbe exact (pos (28800 + m)) s ≡ some t)
        × Holds m t
        × Shows p m t
  step p m s (ep, (same, _), inl none_in_force) le h =
      let (t, e, holds, duty) = waiting-Holds m s h ep none_in_force same in (t, e, holds, inl duty)
  step p m s (ep, (same, _), inr (k, ei, span, more, ex)) le h =
      let at_k = segment_at-Span k p span in
      elim (dec_lt m (end_of k)) [
        | yes inside ↦
            let span' = Span-later k p m span le inside in
            let (a, b, affine_k, in_array) = seg_at_lem k m span' in
            let s1 = record s { dx = heures exact (pos (28800 + m)) s } in
            let f =
              follow-Follows period k m s1 span' ep ei
                (ex ∙ ap intervalle at_k ∙ sym (seg_at-Timed k p span).0) (dx_lem m s ep) same in
            let t = leave_segment exact (pos (28800 + m)) (seg_at k) (follow exact (seg_at k) s1) in
            (
              t,
              gerer_courbe_kept (pos (28800 + m)) s k (seg_at k) ei (rw ep in_array),
              Follows-Holds m t f,
              inl f.1.0,
            )
        | no past ↦
            let (t, e, holds, duty) = stale k p m s span (omega arith) ep ei same in
            let late : IsLate p m = (rw at_k (rw at_k at more), rw at_k (omega arith)) in
            (t, e, holds, inr (late, duty ∙ ap (λ j. line_duty j m) (sym at_k)))
      ]

  rounds-Holds :
      (p m : ℕ) (ms : List ℕ) (s : Soleil Ratio)
      → Holds m s
      → Shows p m s
      → Rising m ms
      → (t : Soleil Ratio) × (select_loop false
            (soleil_tick exact)
            (expiries ms)
            (some s, offsets ms)
          ≡ ((some t, []), again))
        × Holds (last_of m ms) t
        × ShowsLast p m ms t
  unfolding select_loop
  rounds-Holds p m [] s holds shows rising = (s, refl, holds, shows)
  rounds-Holds p m (x ∷ xs) s holds shows (_, le, rising) =
      let (t, e, holds', shows') = step m x s holds le (Rising-lt x xs rising) in
      let (u, loop, last, shown) = rounds-Holds m x xs t holds' shows' rising in
      (u, select_loop-expires x xs s t e ∙ loop, last, shown)

-- The thread of a lamp on the built-in curve, in exact arithmetic, with an open pipe and no segment
-- in force, whose rounds, two or more, come from 8 h on and before 20 h, however late each is. The
-- last of them shows the duty of the curve at its moment, but 50 at 14 h, where the curve reaches 100,
-- which the output refuses; or the segment of the round before was to
-- last until the next one, and this one comes after its end: then it shows what the PWM keeps of the
-- line of that segment, past its end. In both cases the timer of the output waits for that share of its
-- period at each level.
pub thread_soleil-late :
    (os : Os) (n m : ℕ) (ms : List ℕ) (s : Soleil Ratio)
    → eq_ℤ s.thread.pipe_r (negsuc 0) ≡ false
    → s.param ≡ soleil_profil exact
    → s.index ≡ negsuc 0
    → Rising n (m ∷ ms)
    → (t : Soleil Ratio) × (thread_soleil exact os (expiries (n ∷ m ∷ ms)) (offsets (n ∷ m ∷ ms)) s
        ≡ (some t, again))
      × ShowsLast n m ms t
      × (t.pwm.timer.tps_usec ≡ haut_of s.pwm.usec_period t.pwm.rapport)
unfolding thread_soleil
thread_soleil-late os n m ms s piped ep ei (low, le, rising) =
    let period = s.pwm.usec_period in
    let on : Soleil Ratio = record s { pwm = i_start exact os s.pwm } in
    let (t, e, holds, _) = waiting-Holds period n on low ep ei (unfold i_start in refl) in
    let (u, e', holds', shows) = step period n m t holds le (Rising-lt m ms rising) in
    let (v, loop, last, shown) = rounds-Holds period n m ms u holds' shows rising in
    let run = select_loop-expires n (m ∷ ms) on t e ∙ select_loop-expires m ms t u e' ∙ loop in
    (v, rw (piped, run) (ap (λ st. (st.0.0, again)) run), shown, last.1.1)
