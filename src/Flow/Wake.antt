-- ===== src/Flow/Wake.antt =====
-- A wake-up of the event loop of UnitTask_Entry of src/unit_task.c: what it does with the requests of
-- its port.
use mathlib.Core.List.{append-nil}
use virtual_scsidevice.Base.{
  ℕ, zero, suc, ◌≡◌, refl, sym, ap, subst, Bool, true, false, if◌then◌else◌, Option, none, some,
  List, [], ◌∷◌, ◌++◌, get_or, set, arith,
}
use virtual_scsidevice.Request.{IoRequest}
use virtual_scsidevice.Pipeline.{PipeUnit, Effect, RespCmd}
use virtual_scsidevice.Pipeline.Finish.{replies}
use virtual_scsidevice.Pipeline.Harvest.{
  Driver, Target, to_slot, to_doio, unmatched, stash, complete_at, deliver, route, harvest,
}
use virtual_scsidevice.UnitTask.{Services, Handler}
use virtual_scsidevice.Flow.{
  Mail, Meanwhile, shared_memory, unit_memory, takes_cookie, System, Step, shares, memory,
  with_unit_memory, play, with_meanwhile, dispatches, delivers, Steps, start, later, dispatch_to,
  dispatch_port, Signals, Wakeup, serve_port, wake,
}
use virtual_scsidevice.Flow.Held.{occurs}
use virtual_scsidevice.Flow.Invariant.{Inv, InOrder, units_held, Steps-Inv}
use virtual_scsidevice.Flow.Loop.{Reaches, Reaches-Step, Reaches-trans, reached, harvest-Reaches}

-- The unit exists; no step removes it.
abbrev pub IsPresent : ℕ → List (Option PipeUnit) → Type 0
IsPresent u units = (unit : PipeUnit) × (get_or units u none ≡ some unit)

set-IsPresent :
    (units : List (Option PipeUnit)) (u v : ℕ) (after : PipeUnit)
    → IsPresent u units
    → IsPresent u (set units v (some after))
set-IsPresent [] u v after (unit, e) = absurd (cc e)
set-IsPresent (x ∷ units) zero zero after h = (after, refl)
set-IsPresent (x ∷ units) zero (suc v) after h = h
set-IsPresent (x ∷ units) (suc u) zero after h = h
set-IsPresent (x ∷ units) (suc u) (suc v) after h = set-IsPresent units u v after h

complete_at-IsPresent :
    (driver : Driver) (u v slot : ℕ) (o : Option PipeUnit)
    → get_or driver.units v none ≡ o
    → IsPresent u driver.units
    → IsPresent u (complete_at driver v slot).0.units
unfolding complete_at
complete_at-IsPresent driver u v slot none e h = rw (e, complete_at) h
complete_at-IsPresent driver u v slot (some unit) e h =
    rw (e, complete_at) (set-IsPresent driver.units u v _ h)

stash-IsPresent :
    (driver : Driver) (u v cookie written : ℕ) (o : Option PipeUnit)
    → get_or driver.units v none ≡ o
    → IsPresent u driver.units
    → IsPresent u (stash driver v cookie written).0.units
stash-IsPresent driver u v cookie written none e h = rw (e, stash) h
stash-IsPresent driver u v cookie written (some unit) e h =
    rw (e, stash) (set-IsPresent driver.units u v _ h)

abbrev pub at_target : Driver → ℕ → ℕ → Target → Driver × List Effect
at_target driver cookie written target = elim target [
  | to_slot v slot ↦ complete_at driver v slot
  | to_doio v ↦ stash driver v cookie written
  | unmatched ↦ (driver, [])
]

at_target-IsPresent :
    (driver : Driver) (u cookie written : ℕ) (target : Target)
    → IsPresent u driver.units
    → IsPresent u (at_target driver cookie written target).0.units
at_target-IsPresent driver u cookie written (to_slot v slot) h =
    complete_at-IsPresent driver u v slot _ refl h
at_target-IsPresent driver u cookie written (to_doio v) h =
    stash-IsPresent driver u v cookie written _ refl h
at_target-IsPresent driver u cookie written unmatched h = h

deliver-IsPresent :
    (driver : Driver) (u cookie written : ℕ)
    → IsPresent u driver.units
    → IsPresent u (deliver driver cookie written).0.units
unfolding deliver
deliver-IsPresent driver u cookie written h =
    at_target-IsPresent driver u cookie written (route driver cookie) h

memory-IsPresent :
    (driver : Driver) (u v : ℕ) (resp_bufs : List RespCmd) (cookie written : ℕ)
    (o : Option PipeUnit)
    → get_or driver.units v none ≡ o
    → IsPresent u driver.units
    → IsPresent u (with_unit_memory v resp_bufs cookie written driver).units
memory-IsPresent driver u v resp_bufs cookie written none e h = rw (e, with_unit_memory) h
memory-IsPresent driver u v resp_bufs cookie written (some unit) e h =
    rw (e, with_unit_memory) (set-IsPresent driver.units u v _ h)

Steps-IsPresent :
    (services : Services) {s t : System} (u : ℕ)
    → Steps services s t
    → IsPresent u s.driver.units
    → IsPresent u t.driver.units
unfolding dispatch_to
Steps-IsPresent services u start h = h
Steps-IsPresent services u (later steps (shares shared)) h = Steps-IsPresent services u steps h
Steps-IsPresent services u (later {t} steps (memory v resp_bufs cookie written)) h =
    memory-IsPresent t.driver u v resp_bufs cookie written _ refl
      (Steps-IsPresent services u steps h)
Steps-IsPresent services u (later {t} steps (dispatches v unit mail e)) h =
    set-IsPresent t.driver.units u v _ (Steps-IsPresent services u steps h)
Steps-IsPresent services u (later {t} steps (delivers cookie written)) h =
    deliver-IsPresent t.driver u cookie written (Steps-IsPresent services u steps h)

abbrev pub requests : List Mail → List IoRequest
requests [] = []
requests (mail ∷ port) = mail.ioreq ∷ requests port

-- what happens while a command waits in DoIO
play-Reaches :
    (services : Services) (more : List Meanwhile) (t : System)
    → Reaches services t (play more t.driver).0 [] (play more t.driver).1
unfolding play replies
play-Reaches services [] t = reached services t
play-Reaches services (shared_memory shared ∷ more) t =
    let after : System = record t { driver = record t.driver { shared = shared } } in
    Reaches-Step services t after _ [] [] [] (play more after.driver).1 (shares shared)
      (sym (append-nil t.taken)) (sym (append-nil t.replied)) (play-Reaches services more after)
play-Reaches services (unit_memory u resp_bufs cookie written ∷ more) t =
    let after : System = record t {
      driver = with_unit_memory u resp_bufs cookie written t.driver;
    } in
    Reaches-Step services t after _ [] [] [] (play more after.driver).1
      (memory u resp_bufs cookie written) (sym (append-nil t.taken)) (sym (append-nil t.replied))
      (play-Reaches services more after)
play-Reaches services (takes_cookie cookie written ∷ more) t =
    let out = deliver t.driver cookie written in
    let after : System = record t { driver = out.0; replied = t.replied ++ replies out.1 } in
    Reaches-Step services t after _ [] [] out.1 (play more out.0).1 (delivers cookie written)
      (sym (append-nil t.taken)) refl (play-Reaches services more after)

-- one request of the port
with_meanwhile-Reaches :
    (services : Services) (mail : Mail) (s t : System) (first : Bool × Driver × List Effect)
    → Step services s t
    → t.driver ≡ first.1
    → t.taken ≡ s.taken ++ (mail.ioreq ∷ [])
    → t.replied ≡ s.replied ++ replies first.2
    → Reaches services s
        (with_meanwhile mail first).1
        (mail.ioreq ∷ [])
        (with_meanwhile mail first).2
with_meanwhile-Reaches services mail s t (true, driver, es) step d e r =
    (t, later start step, d, e, r)
with_meanwhile-Reaches services mail s t (false, driver, es) step d e r =
    Reaches-Step services s t _ (mail.ioreq ∷ []) [] es _ step e r (
      subst
        (λ (x : Driver). Reaches services t (play mail.meanwhile x).0 [] (play mail.meanwhile x).1)
        d (play-Reaches services mail.meanwhile t))

dispatch_port-Reaches :
    (services : Services) (u : ℕ) (port : List Mail) (s : System) (o : Option PipeUnit)
    → get_or s.driver.units u none ≡ o
    → IsPresent u s.driver.units
    → let batch = dispatch_port services u port s.driver in
      Reaches services s batch.driver (requests port) batch.effects
unfolding dispatch_port
dispatch_port-Reaches services u [] s o e h = reached services s
dispatch_port-Reaches services u (mail ∷ port) s none e (unit, f) = absurd (cc (e, f))
dispatch_port-Reaches services u (mail ∷ port) s (some unit) e h =
    let out = dispatch_to services u unit mail s.driver in
    let t : System = record {
      driver = out.1;
      taken = s.taken ++ (mail.ioreq ∷ []);
      replied = s.replied ++ replies out.2;
    } in
    let first = with_meanwhile mail out in
    let one =
      with_meanwhile-Reaches services mail s t out (dispatches u unit mail e) refl refl refl in
    rw (e, dispatch_port)
      (Reaches-trans services s first.1 _ (mail.ioreq ∷ []) (requests port) first.2
        (dispatch_port services u port first.1).effects one
        (λ v d.
          subst
            (λ (x : Driver).
              IsPresent u x.units
              → Reaches services v (dispatch_port services u port x).driver (requests port)
                  (dispatch_port services u port x).effects)
            d (λ p. dispatch_port-Reaches services u port v _ refl p)
            (subst (λ (x : Driver). IsPresent u x.units) one.2
              (Steps-IsPresent services u one.1 h))))

-- the requests that a wake-up takes from the port
abbrev pub received : Signals → List Mail → List IoRequest
received sigs port = if sigs.ctrl_c then [] else if sigs.port then requests port else []

module _ (services : Services) (iobase : ℕ) (u : ℕ) where
  serve_port-Reaches :
      (signalled : Bool) (port : List Mail) (s : System) (driver : Driver) (es : List Effect)
      → IsPresent u s.driver.units
      → Reaches services s driver [] es
      → let w = serve_port services iobase u signalled port driver es in
        Reaches services s w.driver (if signalled then requests port else []) w.effects
  serve_port-Reaches true port s driver es h r =
      Reaches-trans services s driver _ [] (requests port) es
        (dispatch_port services u port driver).effects r
        (λ t d.
          subst
            (λ (x : Driver).
              IsPresent u x.units
              → Reaches services t (dispatch_port services u port x).driver (requests port)
                  (dispatch_port services u port x).effects)
            d (λ p. dispatch_port-Reaches services u port t _ refl p)
            (subst (λ (x : Driver). IsPresent u x.units) r.2 (Steps-IsPresent services u r.1 h)))
  serve_port-Reaches false port s driver es h r =
      Reaches-trans services s driver driver [] [] es [] r
        (λ t d. subst (λ (x : Driver). Reaches services t x [] []) d (reached services t))

  abbrev pub woken : Signals → List Mail → Option (Driver × List Effect) → Option Wakeup
  woken sigs port got = elim got [
    | none ↦ none
    | some (next, effects) ↦ some (serve_port services iobase u sigs.port port next effects)
  ]

  woken-Reaches :
      (sigs : Signals) (port : List Mail) (s : System) (got : Option (Driver × List Effect))
      (w : Wakeup)
      → IsPresent u s.driver.units
      → ((d : Driver) (es : List Effect) → got ≡ some (d, es) → Reaches services s d [] es)
      → woken sigs port got ≡ some w
      → Reaches services s w.driver (if sigs.port then requests port else []) w.effects
  woken-Reaches sigs port s none w h k e = absurd (cc e)
  woken-Reaches sigs port s (some (next, es)) w h k e =
      let same : serve_port services iobase u sigs.port port next es ≡ w = cc e in
      subst
        (λ (x : Wakeup).
          Reaches services s x.driver (if sigs.port then requests port else []) x.effects)
        same (serve_port-Reaches sigs.port port s next es h (k next es refl))

  wake_by :
      (fuel : ℕ) (stop io signalled : Bool) (port : List Mail) (s : System) (w : Wakeup)
      → IsPresent u s.driver.units
      → let sigs : Signals = record { ctrl_c = stop; io = io; port = signalled } in
        wake fuel services iobase u sigs port s.driver ≡ some w
        → Reaches services s w.driver (received sigs port) w.effects
  unfolding wake
  wake_by fuel true io signalled port s w h e =
      let ended : Wakeup = record {
        running = false;
        driver = s.driver;
        effects = [];
        kicks = [];
      } in
      let same : ended ≡ w = cc e in
      subst (λ (x : Wakeup). Reaches services s x.driver [] x.effects) same (reached services s)
  wake_by fuel false true signalled port s w h e =
      woken-Reaches (record { ctrl_c = false; io = true; port = signalled }) port s
        (harvest fuel s.driver) w h (λ d es f. harvest-Reaches services fuel s d es f) e
  wake_by fuel false false signalled port s w h e =
      woken-Reaches (record { ctrl_c = false; io = false; port = signalled }) port s
        (some (s.driver, [])) w h
        (λ d es f.
          let same : s.driver ≡ d = cc f in
          let quiet : [] ≡ es = cc f in
          subst (λ x. Reaches services s x [] es) same
            (subst (λ l. Reaches services s s.driver [] l) quiet (reached services s)))
        e

  -- A wake-up of a unit's task that comes to its end is a sequence of the steps of the system, in which
  -- the task takes from its port all requests when the port's signal is set and CTRL_C is not, and
  -- none otherwise.
  pub wake-Reaches :
      (fuel : ℕ) (sigs : Signals) (port : List Mail) (s : System) (w : Wakeup)
      → IsPresent u s.driver.units
      → wake fuel services iobase u sigs port s.driver ≡ some w
      → Reaches services s w.driver (received sigs port) w.effects
  unfolding wake
  wake-Reaches fuel sigs port s w h e = wake_by fuel sigs.ctrl_c sigs.io sigs.port port s w h e

-- Whatever all tasks and the device did before, a wake-up of a unit's task keeps the slots of all units
-- in order, and every request that was taken from a port is then either in one slot or was replied,
-- once. The handlers are taken to keep a request's address, and the wake-up to come to its end.
pub wake-Inv :
    (services : Services) (iobase u fuel : ℕ) (sigs : Signals) (port : List Mail) (s : System)
    (w : Wakeup)
    → ((h : Handler) (r : IoRequest) → (services.handler h r).id ≡ r.id)
    → IsPresent u s.driver.units
    → Inv s
    → wake fuel services iobase u sigs port s.driver ≡ some w
    → Inv (record {
      driver = w.driver;
      taken = s.taken ++ received sigs port;
      replied = s.replied ++ replies w.effects;
    })
wake-Inv services iobase u fuel sigs port s w same h inv e =
    let (t, steps, d, f, g) = wake-Reaches services iobase u fuel sigs port s w h e in
    let after = Steps-Inv services same steps inv in
    record {
      in_order = subst (λ (x : Driver). InOrder x.units) d after.in_order;
      kept = λ id. omega (
        arith,
        after.kept id,
        ap (occurs id) f,
        ap (occurs id) g,
        ap (λ (x : Driver). units_held id x.units) d,
      );
    }
