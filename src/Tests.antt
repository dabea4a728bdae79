-- ===== src/Tests.antt =====
-- Objects on which the theorems are run: an operating system that grants everything, a main task with
-- the built-in plans, a lamp with the built-in curve, and a board on a bus that records what is sent.
pub mod Launches
pub mod Lives
pub mod Logs
pub mod Lamp
pub mod Driver
pub mod Programmer
pub mod RegTools
pub mod Sorhea
use gest_aqua.Prelude.{List, [], false, length, ltb, negsuc, none, not, pos, pos_part, some}
use gest_aqua.Prelude.{to_u64, true, ℕ, ◌*◌, ◌+◌, ◌/◌, ◌==◌, ◌∷◌}
use gest_aqua.Config.{ParametreAppli, PlanificationTache, inconnu, profil}
use gest_aqua.Config.Change.{default_planifs}
use gest_aqua.Config.Init.{Memcmp}
use gest_aqua.Double.{Double}
use gest_aqua.Double.Exact.{Ratio, exact}
use gest_aqua.Gpio.{Gpio}
use gest_aqua.Planner.{Env, Machine, MainTask}
use gest_aqua.PowerCam.{I2c, Kernel, PowerCam}
use gest_aqua.Profil.{Profil}
use gest_aqua.Pwm.{PwmGpio}
use gest_aqua.Soleil.{Soleil}
use gest_aqua.Thread.{CThread, Os}
use gest_aqua.Thread.Laws.{stops}
use gest_aqua.Timer.{CTimer}

abbrev pub os : Os
os = record { pipe = some (pos 3, pos 4); create_ok = true }

abbrev pub idle : CThread
idle = record {
  init = true;
  auto_delete = false;
  detache = false;
  started = false;
  arret = 0;
  pipe_r = pos 3;
  pipe_w = pos 4;
  octets = 0;
}

abbrev pub machine : Machine
machine = record { attr_ok = true; detach_ok = true; mutex_ok = true; garbage = 0; os = os }

-- Every comparison of tables finds a difference, and says it with an even number.
abbrev pub compare_two : Memcmp Ratio
compare_two = record { profils = λ a b. pos 2; planifs = λ a b. pos 2 }

abbrev pub params : ParametreAppli Ratio
params = record {
  profils = [];
  planifs = default_planifs exact;
  change = record { param_profil = 0; param_planif_profil = 0 };
}

abbrev pub main_task : MainTask Ratio
main_task = record {
  thread = idle;
  last_day = negsuc 0;
  params = params;
  lanceur = [];
  stops = [];
  timers = [];
  profils = [];
}

abbrev pub no_planif : PlanificationTache
no_planif = record { etype = inconnu; debut = pos 0; period = pos 0; relance = pos 0 }

abbrev pub raw_profil : Profil Ratio
raw_profil = record {
  thread = idle;
  lampe = none;
  param = record {
    nom = [];
    numero_profil = 0;
    param_soleil = record {
      valide = 0;
      azimut = 0;
      ephemeride = no_planif;
      courbe_solaire = record { nb_segment = 0; segments = [] };
    };
  };
  numero = 0;
  debut = pos 0;
  duree = pos 0;
}

abbrev pub env : Env Ratio
env = record { timer = λ i. machine; profil = λ i. machine; raw = λ i. raw_profil }

abbrev pub timer : {C : Type 0} → ℕ → CTimer C
timer flag = record { thread = idle; tps_usec = 500; callback = none; attache = false; flag = flag }

abbrev pub pwm : {D : Type 0} → D → PwmGpio D
pwm d = record {
  timer = timer 1;
  etat = 0;
  gpio = 16;
  frequence = 1000;
  rapport = d;
  usec_haut = 0;
  usec_bas = 0;
  usec_period = 1000;
}

abbrev pub registers : Gpio
registers = record { mapped = true; stores = [] }

abbrev pub lamp : Soleil Ratio
lamp = record {
  thread = idle;
  param = raw_profil.param.param_soleil;
  pwm = pwm (exact.of_ℤ (pos 50));
  index = negsuc 0;
  intervalle_x = 1;
  dx = exact.of_ℤ (pos 0);
}

-- Whole numbers in place of the floating point.
abbrev pub whole : Double
whole = record {
  Val = ℕ;
  of_ℤ = pos_part;
  tenths = λ z. pos_part z / 10;
  add = λ x y. x + y;
  mul = λ x y. x * y;
  div = λ x y. x / y;
  lt = ltb;
  to_u64 = λ x. x;
}

-- What is sent is recorded, and what is received is the byte 127.
abbrev pub recorder : I2c (List (List ℕ))
recorder = record {
  master_send = λ bytes s. (bytes ∷ s, pos (length bytes));
  master_recv = λ buffer s. (s, pos 1, 127 ∷ []);
}

abbrev pub arm : Kernel
arm = record { signed_char = false; hz = 100 }

-- A board with the indices of the ring of events given, and the ring of commands as attached.
abbrev pub board : ℕ → ℕ → PowerCam (List (List ℕ))
board i j = record {
  client = true;
  is_open = 1;
  mode = 1;
  buf_read = λ a. a;
  bufr0 = i;
  bufr1 = j;
  data_on = not (i == j);
  buf_write = λ r. 0 ∷ [];
  bufw0 = 255;
  bufw1 = 255;
  int_valide = 0;
  cpt_clear = 0;
  old_cpt_clear = 0;
  timer_trame_vie = none;
  valeur_trame_vie = 0;
  nb_int_zero = 0;
  etat_bouton_g = 0;
  cpt_poll = 0;
  timer_bouton = none;
  irq_bouton = false;
  irq_carte = true;
  int_task = false;
  vie_task = false;
  wakes = 0;
  bus = [];
}
