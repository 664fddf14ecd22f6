-- ===== src/Flow/Loop.antt =====
-- The event loop of UnitTask_Entry of src/unit_task.c is made of the steps of Flow.antt.
use mathlib.Core.List.{append-nil, append_assoc}
use virtual_scsidevice.Base.{
  ℕ, zero, suc, ◌≡◌, refl, sym, ap, ◌∙◌, subst, ◌==◌, leb, ◌&&◌, if◌then◌else◌, if_ind, Option,
  none, some, List, [], ◌++◌,
}
use virtual_scsidevice.Word.{u16}
use virtual_scsidevice.Request.{IoRequest}
use virtual_scsidevice.Virtqueue.{Virtqueue, get_buf}
use virtual_scsidevice.Pipeline.{Effect}
use virtual_scsidevice.Pipeline.Finish.{replies, replies-append}
use virtual_scsidevice.Pipeline.Harvest.{Driver, deliver, with_vq, coalesce, stored, harvest}
use virtual_scsidevice.UnitTask.{Services}
use virtual_scsidevice.Flow.{System, Step, shares, delivers, Steps, start, later}

-- The steps lead to the driver's state, with the requests taken and replied on the way.
abbrev pub Reaches : Services → System → Driver → List IoRequest → List Effect → Type 0
Reaches services s driver taken effects =
    (t : System) × Steps services s t
    × (t.driver ≡ driver)
    × (t.taken ≡ s.taken ++ taken)
    × (t.replied ≡ s.replied ++ replies effects)

Steps-trans :
    (services : Services) {s t v : System}
    → Steps services s t
    → Steps services t v
    → Steps services s v
Steps-trans services h start = h
Steps-trans services h (later k step) = later (Steps-trans services h k) step

-- what Harvest returns, and a round of its loop, by the rest of the loop and what GetBuf gives
abbrev pub Harvested : Type 0
Harvested = Option (Driver × List Effect)

abbrev pub and_rest : List Effect → Harvested → Harvested
and_rest effects none = none
and_rest effects (some (last, more)) = some (last, effects ++ more)

abbrev pub round : (Driver → Harvested) → Driver → Option (ℕ × Option ℕ × Virtqueue) → Harvested
round again driver none = none
round again driver (some (cookie, written, vq)) =
    let out = deliver (with_vq driver vq) cookie (stored written) in
    if cookie == 0 then some (coalesce (with_vq driver vq), []) else and_rest out.1 (again out.0)

pub harvest-round :
    (fuel : ℕ) (driver : Driver)
    → harvest (suc fuel) driver ≡ round (harvest fuel) driver (get_buf driver.shared.vq)
unfolding harvest
harvest-round fuel driver = refl

module _ (services : Services) where
  pub reached : (s : System) → Reaches services s s.driver [] []
  unfolding replies
  reached s = (s, start, refl, sym (append-nil s.taken), sym (append-nil s.replied))

  pub Reaches-Step :
      (s t : System) (driver : Driver) (taken taken' : List IoRequest) (es fs : List Effect)
      → Step services s t
      → t.taken ≡ s.taken ++ taken
      → t.replied ≡ s.replied ++ replies es
      → Reaches services t driver taken' fs
      → Reaches services s driver (taken ++ taken') (es ++ fs)
  Reaches-Step s t driver taken taken' es fs step e r (v, steps, d, e', r') = (
    v,
    Steps-trans services (later start step) steps,
    d,
    e' ∙ (ap (λ l. l ++ taken') e ∙ append_assoc s.taken taken taken'),
    r'
        ∙ (ap (λ l. l ++ replies fs) r
            ∙ (append_assoc s.replied (replies es) (replies fs)
                ∙ ap (λ l. s.replied ++ l) (sym (replies-append es fs)))),
  )

  pub Reaches-trans :
      (s : System) (mid last : Driver) (taken taken' : List IoRequest) (es fs : List Effect)
      → Reaches services s mid taken es
      → ((t : System) → t.driver ≡ mid → Reaches services t last taken' fs)
      → Reaches services s last (taken ++ taken') (es ++ fs)
  Reaches-trans s mid last taken taken' es fs (t, steps, d, e, r) h =
      let (v, steps', d', e', r') = h t d in
      (
        v,
        Steps-trans services steps steps',
        d',
        e' ∙ (ap (λ l. l ++ taken') e ∙ append_assoc s.taken taken taken'),
        r'
            ∙ (ap (λ l. l ++ replies fs) r
                ∙ (append_assoc s.replied (replies es) (replies fs)
                    ∙ ap (λ l. s.replied ++ l) (sym (replies-append es fs)))),
      )

  -- a change of the ring alone
  ring_only : (s : System) (vq : Virtqueue) → Reaches services s (with_vq s.driver vq) [] []
  unfolding replies
  ring_only s vq = (
    _,
    later start (shares (record s.driver.shared { vq = vq })),
    refl,
    sym (append-nil s.taken),
    sym (append-nil s.replied),
  )

  coalesce-Reaches : (s : System) → Reaches services s (coalesce s.driver) [] []
  unfolding coalesce
  coalesce-Reaches s =
      if_ind (λ d. Reaches services s d [] [])
        (s.driver.shared.vq.use_event_idx && leb 2 (u16 s.driver.shared.occupied_count)) _ s.driver
        (λ _. ring_only s _) (λ _. reached s)

  -- a delivery, and what follows
  deliver-Reaches :
      (s : System) (vq : Virtqueue) (cookie written : ℕ) (last : Driver) (more : List Effect)
      → let out = deliver (with_vq s.driver vq) cookie written in
        ((t : System) → t.driver ≡ out.0 → Reaches services t last [] more)
        → Reaches services s last [] (out.1 ++ more)
  deliver-Reaches s vq cookie written last more h =
      let out = deliver (with_vq s.driver vq) cookie written in
      Reaches-trans s (with_vq s.driver vq) last [] [] [] (out.1 ++ more) (ring_only s vq) (λ t d.
        subst
          (λ (x : Driver).
            ((v : System)
              → v.driver ≡ (deliver x cookie written).0
              → Reaches services v last [] more)
            → Reaches services t last [] ((deliver x cookie written).1 ++ more))
          d
          (λ k.
            Reaches-Step t _ last [] [] (deliver t.driver cookie written).1 more
              (delivers cookie written) (sym (append-nil t.taken)) refl (k _ refl))
          h)

  -- the rest of Harvest, by what it is
  harvest_rest-Reaches :
      (s : System) (vq : Virtqueue) (cookie written : ℕ) (rest : Harvested) (last : Driver)
      (es : List Effect)
      → let out = deliver (with_vq s.driver vq) cookie written in
        ((t : System) (d : Driver) (more : List Effect)
          → t.driver ≡ out.0
          → rest ≡ some (d, more)
          → Reaches services t d [] more)
        → and_rest out.1 rest ≡ some (last, es)
        → Reaches services s last [] es
  harvest_rest-Reaches s vq cookie written none last es h e = absurd (cc e)
  harvest_rest-Reaches s vq cookie written (some (d, more)) last es h e =
      let out = deliver (with_vq s.driver vq) cookie written in
      let same : d ≡ last = cc e in
      let made : out.1 ++ more ≡ es = cc e in
      subst (λ x. Reaches services s x [] es) same
        (subst (λ l. Reaches services s d [] l) made
          (deliver-Reaches s vq cookie written d more (λ t k. h t d more k refl)))

  round-Reaches :
      (again : Driver → Harvested) (s : System) (got : Option (ℕ × Option ℕ × Virtqueue))
      (last : Driver) (es : List Effect)
      → ((t : System) (d : Driver) (more : List Effect)
          → again t.driver ≡ some (d, more)
          → Reaches services t d [] more)
      → round again s.driver got ≡ some (last, es)
      → Reaches services s last [] es
  round-Reaches again s none last es ih e = absurd (cc e)
  round-Reaches again s (some (cookie, written, vq)) last es ih e =
      let out = deliver (with_vq s.driver vq) cookie (stored written) in
      let ended = coalesce (with_vq s.driver vq) in
      if_ind (λ (o : Harvested). o ≡ some (last, es) → Reaches services s last [] es) (cookie == 0)
        (some (ended, [])) (and_rest out.1 (again out.0))
        (λ _ f.
          let same : ended ≡ last = cc f in
          let quiet : [] ≡ es = cc f in
          subst (λ x. Reaches services s x [] es) same
            (subst (λ l. Reaches services s ended [] l) quiet
              (Reaches-trans s (with_vq s.driver vq) ended [] [] [] [] (ring_only s vq) (λ t d.
                subst (λ (x : Driver). Reaches services t (coalesce x) [] []) d
                  (coalesce-Reaches t)))))
        (λ _ f.
          harvest_rest-Reaches s vq cookie (stored written) (again out.0) last es
            (λ t d more k g. ih t d more (subst (λ x. again x ≡ some (d, more)) (sym k) g)) f)
        e

  -- VirtIOSCSI_Harvest is made of steps.
  pub harvest-Reaches :
      (fuel : ℕ) (s : System) (last : Driver) (es : List Effect)
      → harvest fuel s.driver ≡ some (last, es)
      → Reaches services s last [] es
  unfolding harvest
  harvest-Reaches zero s last es e = absurd (cc e)
  harvest-Reaches (suc fuel) s last es e =
      round-Reaches (harvest fuel) s (get_buf s.driver.shared.vq) last es
        (λ t d more f. harvest-Reaches fuel t d more f) (sym (harvest-round fuel s.driver) ∙ e)
