-- ===== src/Thread.antt =====
-- commun/Thread.h and commun/Thread.cpp: `CThread`, and the `select` loop that the `Thread` methods
-- of Timer.cpp, Profil.cpp, Soleil.cpp and MainTache.cpp share.
pub mod Laws
use gest_aqua.Prelude.{Bool, List, Option, [], false, if◌then◌else◌, leb_ℤ, negsuc, none, not}
use gest_aqua.Prelude.{pos, some, ℕ, ℤ, ◌&&◌, ◌+◌, ◌==◌, ◌||◌, ◌∷◌}

-- `CThread`. A pipe's descriptor is -1 when it is not open; `octets` counts the bytes written to the
-- pipe and not read, and `arret` is `ArretThread`, which the constructor leaves as it finds it.
pub record CThread : Type 0 where
  pub init : Bool
  pub auto_delete : Bool
  pub detache : Bool
  pub started : Bool
  pub arret : ℕ
  pub pipe_r : ℤ
  pub pipe_w : ℤ
  pub octets : ℕ

-- The constructor: `attr_ok`, `detach_ok` and `mutex_ok` are the successes of the three pthread calls.
unfoldable pub new_thread : (detache attr_ok detach_ok mutex_ok : Bool) (arret : ℕ) → CThread
new_thread detache attr_ok detach_ok mutex_ok arret = record {
  init = attr_ok && (detach_ok && mutex_ok);
  auto_delete = false;
  detache = detache;
  started = false;
  arret = arret;
  pipe_r = negsuc 0;
  pipe_w = negsuc 0;
  octets = 0;
}

-- What the system answers to `Create`: the two descriptors of `pipe`, or its failure, and whether
-- `pthread_create` succeeds.
pub record Os : Type 0 where
  pub pipe : Option (ℤ × ℤ)
  pub create_ok : Bool

-- `Create`: the new state, the value returned, and whether the caller waited for the thread's end.
unfoldable pub create : Os → (wait_end : Bool) → CThread → CThread × ℤ × Bool
create os wait_end t = elim (os.pipe) [
  | none ↦ (record t { pipe_r = negsuc 0; pipe_w = negsuc 0 }, pos 0, false)
  | some (r, w) ↦ (
    record t { pipe_r = r; pipe_w = w; octets = 0 },
    if os.create_ok then pos 1 else negsuc 0,
    not t.auto_delete && (not t.detache && wait_end),
  )
]

-- `SetArretThread`: the flag, and "stop" in the pipe.
unfoldable pub set_arret : ℕ → CThread → CThread
set_arret c t =
    let t' = record t { arret = c } in
    if not (c == 0) && leb_ℤ (pos 0) t.pipe_w then record t' { octets = t.octets + 4 } else t'

-- `SetAutoDelete`
unfoldable pub set_auto_delete : Bool → CThread → CThread
set_auto_delete b t = record t { auto_delete = b }

-- `FctThread` on an object of any class that has a `CThread`: the body between the two writes of
-- the flag. `none` is the object deleted.
module _ {ℓ} {A : Type ℓ} (get : A → CThread) (put : CThread → A → A) where
  unfoldable pub fct_thread : (A → A) → A → Option A
  unfolding set_arret
  fct_thread body a =
      let b = body (put (set_arret 0 (get a)) a) in
      let c = put (set_arret 2 (get b)) b in if (get c).auto_delete then none else some c

-- The answer of `select` on the reading end of the pipe: ready (with `FD_ISSET`), the time is up,
-- or an error (with `errno == EINTR`).
pub data Select : Type 0 where
  ready : Bool → Select
  timeout : Select
  failed : Bool → Select

-- One round: the flag that the `while` reads, what `select` answers, and the flag read after it.
pub record Round : Type 0 where
  pub arret : ℕ
  pub select : Select
  pub arret_after : ℕ

-- Whether a round leaves the loop.
pub data Next : Type 0 where
  again leave : Next

-- `leave_if_unset` says that the loop leaves on any readiness, as `CMainTask::Thread` does;
-- `tick` is what the loop does when the time is up and no stop is asked for.
module _ {ℓ} {S : Type ℓ} (leave_if_unset : Bool) (tick : S → S × Next) where
  unfoldable pub round : Round → S → S × Next
  round r s = if not (r.arret == 0) then (s, leave) else elim (r.select) [
    | ready is_set ↦ if leave_if_unset || is_set then (s, leave) else (s, again)
    | timeout ↦ if r.arret_after == 0 then tick s else (s, again)
    | failed eintr ↦ if eintr then (s, again) else (s, leave)
  ]

  -- The loop over the rounds that the environment gives; `again` at the end means that it still runs.
  unfoldable pub select_loop : List Round → S → S × Next
  unfolding round
  select_loop [] s = (s, again)
  select_loop (r ∷ rs) s =
      let rest = select_loop rs (round r s).0 in
      elim ((round r s).1) [ again ↦ rest | leave ↦ ((round r s).0, leave) ]
