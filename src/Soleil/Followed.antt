-- ===== src/Soleil/Followed.antt =====
-- A lamp on the built-in curve from round to round, in exact arithmetic.
use gest_aqua.Prelude.{Bool-cases, List, [], ap, ap₂, arith, eq_ℤ, false, get_elem?}
use gest_aqua.Prelude.{if◌then◌else◌, inl, inr, leb, leb_ℤ, negsuc, pos, refl, some, subst, sym}
use gest_aqua.Prelude.{ℕ, ℤ, ◌+ℤ◌, ◌+◌, ◌-ℤ◌, ◌<◌, ◌==◌, ◌∙◌, ◌∷◌, ◌≡◌, ◌≤◌, ◌⊎◌}
use gest_aqua.Config.{ParamSoleil, SegmentSolaire, affine}
use gest_aqua.Config.Curve.{Span, Span-cases, seg_at, value_at}
use gest_aqua.Config.Init.{soleil_profil}
use gest_aqua.Double.Exact.{Ratio, exact}
use gest_aqua.Pwm.{PwmGpio, i_start, set_rapport}
use gest_aqua.Soleil.{Soleil, choose_segment, follow, gerer_courbe, leave_segment, soleil_tick}
use gest_aqua.Soleil.{thread_soleil}
use gest_aqua.Soleil.Laws.{gerer_courbe_found, heures, pwm-leave_segment}
use gest_aqua.Soleil.Rounds.{OnTime, OnTime-lt, expiries, last_of, offsets, select_loop-expires}
use gest_aqua.Soleil.Segments.{Span-later, end_of, intervalle, is_last, seg_at-Timed, segment_at}
use gest_aqua.Soleil.Segments.{segment_at-Span}
use gest_aqua.Soleil.Values.{add-mul-value_at, elapsed, find-default, kept-value, seg_at_lem}
use gest_aqua.Thread.{Os, again, select_loop}
use gest_aqua.Timer.{set_duree}

-- The duty of the curve at a second after 8 h: the value of the segment that holds it, but 50 at the
-- maximum, which the guard of `SetRapportCyclique` refuses.
abbrev pub duty_at : ℕ → Ratio
duty_at n = if n == 21600 then exact.tenths (pos 500) else value_at (seg_at (segment_at n)) n

-- The microseconds that the output spends at each level, for a period and a duty.
abbrev pub haut_of : ℕ → Ratio → ℕ
haut_of period r =
    exact.to_u64 (exact.div (exact.mul (exact.of_ℤ (pos period)) r) (exact.of_ℤ (pos 100)))

-- An output with the duty of the curve: its timer has the time of that duty.
abbrev pub Shines : ℕ → ℕ → PwmGpio Ratio → Type 0
Shines period n p =
    (p.rapport ≡ duty_at n)
    × (p.usec_period ≡ period)
    × (p.timer.tps_usec ≡ haut_of period (duty_at n))

set_rapport-Shines :
    (period n : ℕ) (v : Ratio) (p : PwmGpio Ratio)
    → p.usec_period ≡ period
    → (set_rapport exact v p).rapport ≡ duty_at n
    → Shines period n (set_rapport exact v p)
unfolding set_rapport set_duree
set_rapport-Shines period n v p same e = (e, same, ap₂ haut_of same e)

-- A round with a segment in force.
pub gerer_courbe_kept :
    (off : ℤ) (s : Soleil Ratio) (k : ℕ) (seg : SegmentSolaire Ratio)
    → s.index ≡ pos k
    → get_elem? s.param.courbe_solaire.segments k ≡ some seg
    → gerer_courbe exact off s
      ≡ some (leave_segment exact off seg (follow exact seg (record s { dx = heures exact off s })))
unfolding gerer_courbe choose_segment
gerer_courbe_kept off s k seg ei eg = ground (arith, ei, eg)

-- What is left of a lamp once its segment was followed.
pub leave-follow :
    (off : ℤ) (seg : SegmentSolaire Ratio) (s : Soleil Ratio) (a b : Ratio)
    → seg.courbe ≡ affine a b
    → let t = leave_segment exact off seg (follow exact seg s) in
      (t.param ≡ s.param)
      × (t.intervalle_x ≡ s.intervalle_x)
      × (t.index ≡ (
          if leb_ℤ (seg.temps.debut +ℤ seg.temps.period) (off +ℤ pos seg.intervalle_x)
          then negsuc 0
          else s.index))
unfolding leave_segment follow
leave-follow off seg s a b e = ground (arith, e)

pub dx_lem :
    (n : ℕ) (s : Soleil Ratio)
    → s.param ≡ soleil_profil exact
    → heures exact (pos (28800 + n)) s ≡ exact.div (exact.of_ℤ (pos n)) (exact.of_ℤ (pos 3600))
dx_lem n s ep =
    ap
      (λ (q : ParamSoleil Ratio).
        exact.div (exact.of_ℤ (pos (28800 + n) -ℤ q.ephemeride.debut)) (exact.of_ℤ (pos 3600)))
      ep
    ∙ ap (λ x. exact.div (exact.of_ℤ x) (exact.of_ℤ (pos 3600))) (unfold soleil_profil in elapsed n)

module _ (period : ℕ) where
  -- A lamp after a round `n` seconds after 8 h: the segment that holds the moment is in force and holds
  -- the next one too, or none is.
  abbrev pub Follows : ℕ → Soleil Ratio → Type 0
  Follows n s =
      (s.param ≡ soleil_profil exact)
      × Shines period n s.pwm
      × (s.intervalle_x ≡ intervalle (segment_at n))
      × ((s.index ≡ negsuc 0)
          ⊎ (k : ℕ) × (s.index ≡ pos k) × Span k n × (n + intervalle (segment_at n) < end_of k))

  pub follow-Follows :
      (k n : ℕ) (s : Soleil Ratio)
      → Span k n
      → s.param ≡ soleil_profil exact
      → s.index ≡ pos k
      → s.intervalle_x ≡ (seg_at k).intervalle_x
      → s.dx ≡ exact.div (exact.of_ℤ (pos n)) (exact.of_ℤ (pos 3600))
      → s.pwm.usec_period ≡ period
      → Follows n (leave_segment exact (pos (28800 + n)) (seg_at k) (follow exact (seg_at k) s))
  follow-Follows k n s span ep ei ex ed same_period =
      let (a, b, affine_k, in_array) = seg_at_lem k n span in
      let (same, timed) = seg_at-Timed k n span in
      let at_k = segment_at-Span k n span in
      let lit = pwm-leave_segment exact (pos (28800 + n)) (seg_at k) s a b affine_k in
      let (tp, tx, ti) = leave-follow (pos (28800 + n)) (seg_at k) s a b affine_k in
      let value : exact.add (exact.mul a s.dx) b ≡ value_at (seg_at k) n =
        ap (λ v. exact.add (exact.mul a v) b) ed
        ∙ add-mul-value_at (seg_at k) n a b (pos n) affine_k refl in
      (
        tp ∙ ep,
        subst (Shines period n) (sym lit) (
            set_rapport-Shines period n (exact.add (exact.mul a s.dx) b) s.pwm same_period (
              ap (λ (v : Ratio). (set_rapport exact v s.pwm).rapport) value
              ∙ kept-value k n s.pwm span
              ∙ ap (λ j. if n == 21600 then exact.tenths (pos 500) else value_at (seg_at j) n)
                  (sym at_k))),
        tx ∙ ex ∙ same ∙ ap intervalle (sym at_k),
        elim (Bool-cases (is_last k n)) [
          | inl last ↦ inl (ti ∙ rw last refl)
          | inr more ↦
              let later : leb (end_of k) (n + intervalle k) ≡ false = sym timed ∙ more in
              inr (k, ti ∙ rw more ei, span, rw at_k (ground arith))
        ],
      )

  -- The first round, and each that comes in time.
  pub waiting-Follows :
      (n : ℕ) (s : Soleil Ratio)
      → n < 43200
      → s.param ≡ soleil_profil exact
      → s.index ≡ negsuc 0
      → s.pwm.usec_period ≡ period
      → (t : Soleil Ratio) × (gerer_courbe exact (pos (28800 + n)) s ≡ some t) × Follows n t
  waiting-Follows n s h ep ei same_period =
      let (k, span) = Span-cases n h in
      let (a, b, affine_k, in_array) = seg_at_lem k n span in
      (
        _,
        gerer_courbe_found exact (pos (28800 + n)) s k (seg_at k) ei
            (rw ep (unfold soleil_profil in find-default k n span)) (rw ep in_array),
        follow-Follows k n _ span ep refl refl (dx_lem n s ep) same_period,
      )

  later-Follows :
      (n m : ℕ) (s : Soleil Ratio)
      → Follows n s
      → n ≤ m
      → m ≤ n + s.intervalle_x
      → m < 43200
      → (t : Soleil Ratio) × (gerer_courbe exact (pos (28800 + m)) s ≡ some t) × Follows m t
  later-Follows n m s (ep, (_, same_period, _), ex, inl none_in_force) le soon h =
      waiting-Follows m s h ep none_in_force same_period
  later-Follows n m s (ep, (_, same_period, _), ex, inr (k, ei, span, more)) le soon h =
      let inside : m < end_of k = omega (arith, ex) in
      let span' = Span-later k n m span le inside in
      let (a, b, affine_k, in_array) = seg_at_lem k m span' in
      let at_k = segment_at-Span k n span in
      (
        _,
        gerer_courbe_kept (pos (28800 + m)) s k (seg_at k) ei (rw ep in_array),
        follow-Follows k m _ span' ep ei (ex ∙ ap intervalle at_k ∙ sym (seg_at-Timed k n span).0)
            (dx_lem m s ep) same_period,
      )

  select_loop-Follows :
      (n : ℕ) (ns : List ℕ) (s : Soleil Ratio)
      → Follows n s
      → OnTime n ns
      → (t : Soleil Ratio) × (select_loop false
            (soleil_tick exact)
            (expiries ns)
            (some s, offsets ns)
          ≡ ((some t, []), again))
        × Follows (last_of n ns) t
  unfolding select_loop
  select_loop-Follows n [] s f h = (s, refl, f)
  select_loop-Follows n (m ∷ ms) s f (_, le, soon, rest) =
      let (t, e, f') = later-Follows n m s f le (rw (f.2) soon) (OnTime-lt m ms rest) in
      let (u, loop, fu) = select_loop-Follows m ms t f' rest in
      (u, select_loop-expires m ms s t e ∙ loop, fu)

-- The thread of a lamp on the built-in curve, in exact arithmetic, with an open pipe and no segment
-- in force, whose rounds come from 8 h on and before 20 h, each at the latest when the interval of
-- the segment at the round before is over: after each round the duty is the value of the segment
-- that holds the moment, but 50 at 14 h, where the curve reaches 100; the timer of the output waits
-- for that share of its period at each level; and `select` then waits for the interval of that
-- segment.
pub thread_soleil-duty_at :
    (os : Os) (n : ℕ) (ns : List ℕ) (s : Soleil Ratio)
    → eq_ℤ s.thread.pipe_r (negsuc 0) ≡ false
    → s.param ≡ soleil_profil exact
    → s.index ≡ negsuc 0
    → OnTime n ns
    → (t : Soleil Ratio) × (thread_soleil exact os (expiries (n ∷ ns)) (offsets (n ∷ ns)) s
        ≡ (some t, again))
      × (t.pwm.rapport ≡ duty_at (last_of n ns))
      × (t.pwm.timer.tps_usec ≡ haut_of s.pwm.usec_period (duty_at (last_of n ns)))
      × (t.intervalle_x ≡ intervalle (segment_at (last_of n ns)))
unfolding thread_soleil
thread_soleil-duty_at os n ns s piped ep ei h =
    let on : Soleil Ratio = record s { pwm = i_start exact os s.pwm } in
    let (t, e, f) =
      waiting-Follows s.pwm.usec_period n on (OnTime-lt n ns h) ep ei (unfold i_start in refl) in
    let (u, loop, fu) = select_loop-Follows s.pwm.usec_period n ns t f h in
    let run = select_loop-expires n ns on t e ∙ loop in
    (u, rw (piped, run) (ap (λ st. (st.0.0, again)) run), fu.1.0, fu.1.2, fu.2)
