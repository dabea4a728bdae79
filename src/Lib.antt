-- ===== src/Lib.antt =====
-- gest_aqua: the light of an aquarium, driven by plans of the day, and the Linux driver of the
-- PowerCam board that stands beside it in the repository.
--
-- The program. The main task (MainTache.cpp) looks once a second whether the day has changed; then it
-- reads the parameters (BaseSqlite.cpp) and gives each plan of the day a one-shot timer (Timer.cpp)
-- that launches its profile. A launched profile (Profil.cpp) owns a lamp (Soleil.cpp), whose thread
-- follows the solar curve of the profile and sets the duty of a PWM output (PwmGpio.cpp), a pin of the
-- memory-mapped GPIO (gpio-mmap.cpp) that a periodic timer toggles; a second timer stops the profile.
-- Every class with a thread stands on CThread (commun/Thread.cpp). The driver (driver
-- linux/exemple/stim_drivers/dlgi2c.c) keeps two rings, of events for the application and of its
-- commands, and exchanges them with the board over i2c in works that interrupts and timers queue; the
-- program dlg_i2c_sorhea.c gives it commands. The driver regdebug.c reads and writes registers for
-- the program testreg.c. Three smaller drivers, the programmer pic18f.c, the power management
-- stim_pm.c and the skeleton AquaPwm.c, stand by themselves, and so do the log commun/FileLog.cpp, the
-- older task SequenceurTache.cpp and the trial of sqlite main.cpp.
--
-- The files.
--   Prelude and below: shared names, Boolean tests, lists, integers, C words and their bits,
--     association lists.
--   Double, Double.Exact: the floating point, a parameter, and exact fractions as an instance.
--   Config: the types of BaseSqlite.h. Config.Init: pstInit, sInitProfil, sInitPlanification.
--     Config.Change and Config.Curve: theorems on the tables and on the curve.
--   Thread: CThread, Create, FctThread, SetArretThread and the select loop. Thread.Laws.
--   Timer: CTimer with Start, Stop and Thread. Timer.Laws.
--   Gpio: gpio_map, gpio_output, gpio_input, GPIO_WRITE, as stores to words.
--   Pwm: CPwmGpio with iInit, SetRapportCyclique, iStart, iStop, GestionPwm. Pwm.Laws.
--   Soleil: CSoleil with iGererCourbe and Thread. Soleil.Search, Laws, Values, Segments,
--     Rounds, Followed, Late, Loop: theorems.
--   Profil: CProfil with iInit, Start, iStartProfil and Thread. Profil.Lamps: theorems.
--   Planner: CMainTask with iInitPlanification, iStartProfil, iStopProfil and the two callbacks.
--     Planner.Main: its Thread. Planner.Timers, Plan, Day, Daily, EachDay, Stop, Launch,
--     Running, Told, Watched, Kept, Life, Ending, Served, Moves, Morning, Days,
--     Replanned: theorems.
--   General: tGetOffsetFromMidnight of commun/General.cpp, and the clock of the main task.
--     General.Zones: theorems. AquaGest: the program's main. AquaGest.Run: theorems.
--   Daylight: theorems on the main task, a profile and its lamp together.
--   Sequencer: SequenceurTache.cpp. Trial: main.cpp.
--   FileLog: FileLog of commun/FileLog.cpp but Log. FileLog.Lines: Log. FileLog.Dated, Purged,
--     Flushed: theorems.
--   PowerCam: the driver's data. PowerCam.Bus: what goes over i2c. PowerCam.Ring: DataIn, read,
--     Send, write. PowerCam.Tasks: the works, interrupts and timers. PowerCam.Ioctl.
--     PowerCam.Device: attach to exit. PowerCam.Steps: the driver as steps in any order.
--     PowerCam.Following, Queue, Overrun, Life, Commands, Sent, Delayed, Attached, Rings, Calls,
--     Settings, Masks: theorems.
--   CharDevice: driver linux/pwm/AquaPwm.c, and the registration of a character device.
--   Pic18f: driver linux/exemple/stim_drivers/pic18f.c. Pic18f.Pins: theorems.
--   RegDebug: driver linux/exemple/stim_drivers/regdebug.c, its parameters. RegDebug.Clock:
--     set_mclk_rate. RegDebug.Handler: regdebug_ioctl. RegDebug.Running, Replied: theorems.
--   StimPm: driver linux/exemple/stim_drivers/stim_pm.c. StimPm.Loaded: theorems.
--   DlgSorhea: driver linux/exemple/dlg_i2c_sorhea.c, over PowerCam.Ioctl. DlgSorhea.CommandLine,
--     Written: theorems.
--   TestReg: driver linux/exemple/testreg.c, over RegDebug.Handler: its arguments and loops.
--     TestReg.Kinds: UseLigneCmd. TestReg.Menu: the menus and main. TestReg.Swept, Shown: theorems.
--   Tests: concrete objects, and each theorem at one of them.
--
-- How the code is read. A record stands for the fields of a class or struct, a function for a method:
-- it takes and returns the state. What the system answers (pthread_create, pipe, select, the clock,
-- the i2c bus, copy_from_user, strtoul, scanf) is an argument, and so are the functions of other
-- drivers. A pointer to a timer or a profile is an index in an array of those ever built, and new
-- never fails. An access that C leaves undefined (past an array, through the null mapping, erase of
-- end ()) gives none. Unsigned words wrap as written (% 2 ^ w); a
-- time_t has the width given. Whether char is signed and HZ are given by the kernel's record. What a
-- method prints is left out, but by the three small programs (dlg_i2c_sorhea.c, testreg.c, main.cpp),
-- whose standard output is modelled, without its prompts and menus.
--
-- Bounds and fuel. A select loop runs over the list of rounds that the environment gives, which may be
-- of any length, and says at its end whether the thread still runs. The loops of the driver that
-- count tries (3, 3, 3 and 9), bits (7) and readings (1000) run on that very count, and the search
-- of a segment on the number of segments. The loop of testreg on the registers from 0x53fc0000 runs
-- on fuel, 46 of it: 45 registers and the test that ends it.
--
-- Not modelled: win32, the pipe of Windows in commun/General.cpp, and what is under #if 0. CLune and
-- CBaseSqlite are empty. SequenceurTache.cpp, commun/FileLog.cpp and main.cpp are modelled though the
-- Makefile leaves them out: the first includes headers that are not there, whose classes nothing uses,
-- and the second uses fields that its class does not declare, which the model has. The copies of other
-- projects (mysql, sqlite3, commun/pthread, commun/crc, commun/vsscanf) are left aside. An interrupt
-- or a timer of the driver runs as one step; so does a work, which holds the driver's semaphore, and
-- so does each callback of a timer of the main task.
mod Prelude
pub mod Double
pub mod Config
pub mod Thread
pub mod Timer
pub mod Gpio
pub mod Pwm
pub mod Soleil
pub mod Profil
pub mod RegDebug
pub mod StimPm
pub mod Planner
pub mod FileLog
pub mod Sequencer
pub mod Trial
pub mod General
pub mod AquaGest
pub mod Daylight
pub mod PowerCam
pub mod CharDevice
pub mod Pic18f
pub mod DlgSorhea
pub mod TestReg
pub mod Tests
