-- ===== src/Program/Shutdown.antt =====
-- cmd/pc/main.go: the end of a program, whatever the transport and the bus have done before.
use lucinda.Base.{◌≡◌, refl, ap, ◌∙◌, str_eq, List, [], some, true, false, arith, Option}
use lucinda.ModuleManager.{ModuleType, type_name}
use lucinda.EventBus.{Bus}
use lucinda.Transport.Defs
use lucinda.Transport.Defs.{Transport, not_started}
use lucinda.Transport.Sound.{stop-Sound}
use lucinda.Transport.Calls.{Call, calls, calls-Sound}
use lucinda.Monitor
use lucinda.Program.Services.{Loop, stop_part, stop_postman}
use lucinda.Program.Main.{Program, shut_down}
use lucinda.Program.Wiring.{Wired, started_loops}

-- The program when its transport and its bus have gone on.
abbrev pub after : {P : Type 0} → Program P → Transport → Bus → Program P
after p t b = record p { services = record p.services { transport = t; bus = b } }

stop_twice : (t : Transport) → t.is_started ≡ false → Defs.stop t ≡ some (t, some not_started)
unfolding Defs.stop
stop_twice t off = ground (arith, off)

-- The calls of `Stop` in the order of `main`.
abbrev stop_all : List Loop → Option (List Loop)
stop_all loops = stop_postman true (
    stop_part ModuleType.task_board (
      stop_part ModuleType.task_planner
        (stop_part ModuleType.task_reducer (stop_part ModuleType.task_executor loops))))

stop_all_started : (loops : List Loop) → loops ≡ started_loops → stop_all loops ≡ some []
unfolding stop_part stop_postman str_eq type_name
stop_all_started loops h = ap stop_all h ∙ refl

-- A program that was started, and whose transport has had any sequence of calls, each of them whole,
-- shuts down if the handlers that still run in loops of `Watch` return: no channel is closed twice,
-- though the transport is stopped by `main` and by itself, the postman does not wait for ever for a loop
-- of `Deliver`, none of the loops of `Watch`, the loops of `Deliver` and the heartbeat that the four
-- parts began when they were started is left, and the transport is stopped.
pub shut_down_ends :
    {P : Type 0} (p : Program P) (l : List Call) (b : Bus)
    → Wired p
    → (t : Transport) × (calls l p.services.transport ≡ some t)
      × ((p' : Program P) × (shut_down true (after p t b) ≡ some p')
          × (p'.services.loops ≡ [])
          × (p'.services.transport.is_started ≡ false))
unfolding shut_down
shut_down_ends {P = P} p l b wired =
    let (t, ran, s, hosted) = calls-Sound l p.services.transport wired.sound wired.hosted in
    let (t', err, stopped, s', off) = stop-Sound t s in
    let p' : Program P = record p {
      services = record p.services { transport = t'; bus = b; loops = [] };
      monitor = (Monitor.stop p.monitor).0;
    } in
    (
      t,
      ran,
      (
        p',
        rw (shut_down, stopped, stop_twice t' off, stop_all_started p.services.loops wired.loops)
            refl,
        refl,
        off,
      ),
    )
