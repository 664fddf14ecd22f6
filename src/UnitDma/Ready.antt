-- ===== src/UnitDma/Ready.antt =====
-- When preallocate_unit_dma of src/unit_task.c succeeds, and what the buffers are then.
use mathlib.Core.List.{append-nil, append_assoc}
use virtual_scsidevice.Base.{
  ℕ, Option, none, some, ◌+◌, ◌≡◌, sym, ap, subst, ◌∙◌, ◌==◌, Bool, true, false, ◌&&◌, not,
  if◌then◌else◌, if_ind, List, [], ◌∷◌, ◌++◌, arith,
}
use virtual_scsidevice.DoIo.Dma.{Call}
use virtual_scsidevice.UnitDma.{
  Buffers, Answers, map_resp, map_req, alloc_one_slot, alloc_one_bounce, alloc_at, fill_from,
  preallocate_buffers, Preallocated, roll_back,
}

-- Every call into the system gives something.
abbrev pub granted : Answers → Bool
granted a =
    not (a.req_buf == 0)
    && not (a.resp_buf == 0)
    && not (a.req_entries == 0)
    && not (a.req_list == 0)
    && not (a.resp_entries == 0)
    && not (a.resp_list == 0)
    && not (a.bounce_buf == 0)
    && not (a.bounce_entries == 0)
    && not (a.bounce_list == 0)
    && not (a.pool == 0)

-- What Submit and Harvest use of the buffers is as the system gave it.
abbrev pub as_given : Answers → Buffers
as_given a = record {
  req_buf = a.req_buf;
  resp_buf = a.resp_buf;
  req_list = a.req_list;
  req_entries = a.req_entries;
  resp_list = a.resp_list;
  resp_entries = a.resp_entries;
  bounce_buf = a.bounce_buf;
  bounce_phys = a.bounce_phys;
  bounce_entries = 0;
  pool = a.pool;
}

abbrev pub all_granted : ℕ → (ℕ → Answers) → List Buffers → Bool
all_granted s answers [] = true
all_granted s answers (b ∷ bs) = granted (answers s) && all_granted (s + 1) answers bs

abbrev pub all_given : ℕ → (ℕ → Answers) → List Buffers → List Buffers
all_given s answers [] = []
all_given s answers (b ∷ bs) = as_given (answers s) ∷ all_given (s + 1) answers bs

slot_ok :
    (a : Answers) (b : Buffers)
    → (alloc_one_slot a b).ok ≡ (
        not (a.req_buf == 0)
        && not (a.resp_buf == 0)
        && not (a.req_entries == 0)
        && not (a.req_list == 0)
        && not (a.resp_entries == 0)
        && not (a.resp_list == 0))
unfolding alloc_one_slot map_req map_resp
slot_ok a b = ground arith

bounce_ok :
    (a : Answers) (b : Buffers)
    → (alloc_one_bounce a b).ok
      ≡ (not (a.bounce_buf == 0) && not (a.bounce_entries == 0) && not (a.bounce_list == 0))
unfolding alloc_one_bounce
bounce_ok a b = ground arith

alloc_at_ok : (a : Answers) (b : Buffers) → (alloc_at a b).ok ≡ granted a
unfolding alloc_at
alloc_at_ok a b = ground (arith, slot_ok a b, bounce_ok a (alloc_one_slot a b).buffers)

alloc_at_given :
    (a : Answers) (b : Buffers) → granted a ≡ true → (alloc_at a b).buffers ≡ as_given a
unfolding alloc_at alloc_one_slot map_req map_resp alloc_one_bounce
alloc_at_given a b h = ground (arith, h)

-- The buffers after a success.
abbrev pub outcome : Preallocated → Option (List Buffers)
outcome p = if p.ok then some p.buffers else none

abbrev pub expected : ℕ → (ℕ → Answers) → List Buffers → List Buffers → Option (List Buffers)
expected s answers done todo =
    if all_granted s answers todo then some (done ++ all_given s answers todo) else none

expected-granted :
    (s : ℕ) (answers : ℕ → Answers) (done : List Buffers) (b : Buffers) (rest : List Buffers)
    → granted (answers s) ≡ true
    → expected (s + 1) answers (done ++ (as_given (answers s) ∷ [])) rest
      ≡ expected s answers done (b ∷ rest)
expected-granted s answers done b rest e =
    ap (λ (l : List Buffers). if all_granted (s + 1) answers rest then some l else none)
      (append_assoc done (as_given (answers s) ∷ []) (all_given (s + 1) answers rest))
    ∙ ap
        (λ g.
          if g && all_granted (s + 1) answers rest
          then some (done ++ all_given s answers (b ∷ rest))
          else none)
        (sym e)

expected-refused :
    (s : ℕ) (answers : ℕ → Answers) (done : List Buffers) (b : Buffers) (rest : List Buffers)
    → granted (answers s) ≡ false
    → none ≡ expected s answers done (b ∷ rest)
expected-refused s answers done b rest e =
    ap
      (λ g.
        if g && all_granted (s + 1) answers rest
        then some (done ++ all_given s answers (b ∷ rest))
        else none)
      (sym e)

fill_from-outcome :
    (s : ℕ) (answers : ℕ → Answers) (done todo : List Buffers) (calls : List Call)
    → outcome (fill_from s answers done todo calls) ≡ expected s answers done todo
unfolding fill_from
fill_from-outcome s answers done [] calls = ap some (sym (append-nil done))
fill_from-outcome s answers done (b ∷ rest) calls =
    let o = alloc_at (answers s) b in
    let next = fill_from (s + 1) answers (done ++ (o.buffers ∷ [])) rest (calls ++ o.calls) in
    let step =
      fill_from-outcome (s + 1) answers (done ++ (o.buffers ∷ [])) rest (calls ++ o.calls) in
    if_ind (λ p. outcome p ≡ expected s answers done (b ∷ rest)) o.ok next
      (roll_back done o.buffers rest (calls ++ o.calls))
      (λ e.
        let yes = sym (alloc_at_ok (answers s) b) ∙ e in
        subst (λ (c : Buffers). outcome next ≡ expected (s + 1) answers (done ++ (c ∷ [])) rest)
          (alloc_at_given (answers s) b yes) step
        ∙ expected-granted s answers done b rest yes)
      (λ e. expected-refused s answers done b rest (sym (alloc_at_ok (answers s) b) ∙ e))

-- preallocate_unit_dma succeeds exactly when every one of its calls into the system, at every index,
-- gives something; and then the arrays hold what the system gave, index by index, with no bounce
-- buffer left mapped.
pub preallocate_buffers-outcome :
    (answers : ℕ → Answers) (bs : List Buffers)
    → outcome (preallocate_buffers answers bs)
      ≡ (if all_granted 0 answers bs then some (all_given 0 answers bs) else none)
unfolding preallocate_buffers
preallocate_buffers-outcome answers bs = fill_from-outcome 0 answers [] bs []
