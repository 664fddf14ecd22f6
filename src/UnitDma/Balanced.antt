-- ===== src/UnitDma/Balanced.antt =====
-- preallocate_unit_dma of src/unit_task.c against free_unit_dma.
use virtual_scsidevice.Base.{ℕ, ◌+◌, ◌≡◌, refl, false, not, if_ind, List, [], ◌∷◌, ◌++◌, arith}
use virtual_scsidevice.DoIo.Dma.{Call}
use virtual_scsidevice.DoIo.Balance.{
  Resource, memory, mapping, entry_list, takes, gives, total, total-append, Balanced,
}
use virtual_scsidevice.UnitDma.{
  Buffers, Answers, Allocated, map_resp, map_req, alloc_one_slot, free_one_slot, alloc_one_bounce,
  free_one_bounce, alloc_pool, free_at, free_all, alloc_at, undo_with, after_calls,
  free_bounce_and_slot, then_free, fill_from, preallocate_buffers, Preallocated, roll_back,
}
use virtual_scsidevice.UnitDma.Holds.{
  holds, Accounts, accounted, Accounts-append, free_one_slot-Accounts, free_one_bounce-Accounts,
  free_pool-Accounts,
}
use virtual_scsidevice.UnitDma.Conserves.{
  NoSlot, NoBounce, AccountsFor, alloc_one_slot-Accounts, alloc_one_bounce-Accounts,
  alloc_pool-Accounts, alloc_one_slot-rest, alloc_one_bounce-rest,
}

-- Nothing is allocated at the index, as in a new unit.
abbrev pub IsClear : Buffers → Type 0
IsClear b = NoSlot b × NoBounce b × (b.pool ≡ 0)

-- The buffers hold nothing.
abbrev pub HoldsNothing : Buffers → Type 0
HoldsNothing b = (r : Resource) (a : ℕ) → holds r a b ≡ 0

Clear-HoldsNothing : (b : Buffers) → IsClear b → HoldsNothing b
unfolding holds
Clear-HoldsNothing b h memory a = ground arith
Clear-HoldsNothing b h mapping a = ground arith
Clear-HoldsNothing b h entry_list a = ground arith

then_free-Accounts :
    (f : Buffers → Buffers × List Call) (b : Buffers) (r : Buffers × List Call)
    → ((c : Buffers) → Accounts c (f c).0 (f c).1)
    → Accounts b r.0 r.1
    → Accounts b (then_free f r).0 (then_free f r).1
then_free-Accounts f b r k h = Accounts-append b r.0 (f r.0).0 r.1 (f r.0).1 h (k r.0)

free_at-Accounts : (b : Buffers) → Accounts b (free_at b).0 (free_at b).1
unfolding free_at
free_at-Accounts b =
    then_free-Accounts free_one_slot b _ free_one_slot-Accounts
      (then_free-Accounts free_one_bounce b _ free_one_bounce-Accounts (free_pool-Accounts b))

free_at_empty : (b : Buffers) → HoldsNothing (free_at b).0
unfolding free_at free_one_slot free_one_bounce holds
free_at_empty b memory a = ground arith
free_at_empty b mapping a = ground arith
free_at_empty b entry_list a = ground arith

undo_with-Accounts :
    (f : Buffers → Buffers × List Call) (b : Buffers) (o : Allocated)
    → ((c : Buffers) → Accounts c (f c).0 (f c).1)
    → AccountsFor b o
    → AccountsFor b (undo_with f o)
undo_with-Accounts f b o k h =
    Accounts-append b o.buffers (f o.buffers).0 o.calls (f o.buffers).1 h (k o.buffers)

free_bounce_and_slot-Accounts :
    (c : Buffers) → Accounts c (free_bounce_and_slot c).0 (free_bounce_and_slot c).1
free_bounce_and_slot-Accounts c =
    then_free-Accounts free_one_slot c _ free_one_slot-Accounts (free_one_bounce-Accounts c)

alloc_one_slot_failed :
    (a : Answers) (b : Buffers)
    → NoSlot b
    → (alloc_one_slot a b).ok ≡ false
    → NoSlot (alloc_one_slot a b).buffers
unfolding alloc_one_slot map_req map_resp
alloc_one_slot_failed a b n bad = ground arith

alloc_one_bounce_failed :
    (a : Answers) (b : Buffers)
    → NoBounce b
    → (alloc_one_bounce a b).ok ≡ false
    → NoBounce (alloc_one_bounce a b).buffers
unfolding alloc_one_bounce
alloc_one_bounce_failed a b n bad = ground arith

free_one_slot_empty : (b : Buffers) → NoBounce b → b.pool ≡ 0 → HoldsNothing (free_one_slot b).0
unfolding free_one_slot holds
free_one_slot_empty b n z memory a = ground arith
free_one_slot_empty b n z mapping a = ground arith
free_one_slot_empty b n z entry_list a = ground arith

free_bounce_and_slot_empty : (b : Buffers) → b.pool ≡ 0 → HoldsNothing (free_bounce_and_slot b).0
unfolding free_one_slot free_one_bounce holds
free_bounce_and_slot_empty b z memory a = ground arith
free_bounce_and_slot_empty b z mapping a = ground arith
free_bounce_and_slot_empty b z entry_list a = ground arith

-- The body of the loop accounts for its calls, and holds nothing after a failure.
abbrev Settles : Buffers → Allocated → Type 0
Settles b o = AccountsFor b o × (o.ok ≡ false → HoldsNothing o.buffers)

after_calls-Accounts :
    (b c : Buffers) (calls : List Call) (o : Allocated)
    → Accounts b c calls
    → AccountsFor c o
    → AccountsFor b (after_calls calls o)
after_calls-Accounts b c calls o h k = Accounts-append b c o.buffers calls o.calls h k

alloc_at-Settles : (a : Answers) (b : Buffers) → IsClear b → Settles b (alloc_at a b)
unfolding alloc_at
alloc_at-Settles a b clear =
    let slot = alloc_one_slot a b in
    let bounce = after_calls slot.calls (alloc_one_bounce a slot.buffers) in
    let pool = after_calls bounce.calls (alloc_pool a bounce.buffers) in
    let kept = alloc_one_slot-rest a b in
    let no_bounce : NoBounce slot.buffers =
      (omega (arith, clear.1.0, kept.0), omega (arith, clear.1.1, kept.1)) in
    let no_pool : slot.buffers.pool ≡ 0 = omega (arith, clear.2, kept.2) in
    let no_pool' : bounce.buffers.pool ≡ 0 =
      omega (arith, no_pool, alloc_one_bounce-rest a slot.buffers) in
    let h : AccountsFor b slot = alloc_one_slot-Accounts a b clear.0 in
    let k : AccountsFor b bounce =
      after_calls-Accounts b slot.buffers slot.calls (alloc_one_bounce a slot.buffers) h
        (alloc_one_bounce-Accounts a slot.buffers no_bounce) in
    let l : AccountsFor b pool =
      after_calls-Accounts b bounce.buffers bounce.calls (alloc_pool a bounce.buffers) k
        (alloc_pool-Accounts a bounce.buffers no_pool') in
    if_ind (Settles b) (not slot.ok) slot _
      (λ e. (
        h,
        λ f.
            Clear-HoldsNothing slot.buffers
              (alloc_one_slot_failed a b clear.0 f, no_bounce, no_pool),
      ))
      (λ e.
        if_ind (Settles b) (not bounce.ok) (undo_with free_one_slot bounce) _
          (λ f. (
            undo_with-Accounts free_one_slot b bounce free_one_slot-Accounts k,
            λ _.
                free_one_slot_empty bounce.buffers
                  (alloc_one_bounce_failed a slot.buffers no_bounce (ground (arith, f))) no_pool',
          ))
          (λ f.
            if_ind (Settles b) (not pool.ok) (undo_with free_bounce_and_slot pool) pool
              (λ g. (
                undo_with-Accounts free_bounce_and_slot b pool free_bounce_and_slot-Accounts l,
                λ _. free_bounce_and_slot_empty pool.buffers (ground (arith, g)),
              ))
              (λ g. (l, λ z. absurd (ground (arith, g, z))))))

-- The same for the buffers of all indices.
abbrev pub held_by : Resource → ℕ → List Buffers → ℕ
held_by r a [] = 0
held_by r a (b ∷ bs) = holds r a b + held_by r a bs

abbrev pub AllClear : List Buffers → Type 0
AllClear [] = Unit
AllClear (b ∷ bs) = IsClear b × AllClear bs

held_by-append :
    (r : Resource) (a : ℕ) (bs cs : List Buffers)
    → held_by r a (bs ++ cs) ≡ held_by r a bs + held_by r a cs
held_by-append r a [] cs = omega arith
held_by-append r a (b ∷ bs) cs = omega (arith, held_by-append r a bs cs)

held_by-clear : (r : Resource) (a : ℕ) (bs : List Buffers) → AllClear bs → held_by r a bs ≡ 0
held_by-clear r a [] h = refl
held_by-clear r a (b ∷ bs) h = omega (arith, Clear-HoldsNothing b h.0 r a, held_by-clear r a bs h.1)

-- free_unit_dma gives back all that the buffers hold, whatever they are, and they hold nothing
-- afterwards.
free_all-accounts :
    (r : Resource) (a : ℕ) (bs : List Buffers)
    → (held_by r a bs + total (takes r a) (free_all bs).1 ≡ total (gives r a) (free_all bs).1)
      × (held_by r a (free_all bs).0 ≡ 0)
unfolding free_all
free_all-accounts r a [] = (refl, refl)
free_all-accounts r a (b ∷ bs) =
    let (rest, none) = free_all-accounts r a bs in
    let first = accounted (free_at-Accounts b) r a in
    let empty = free_at_empty b r a in
    (
      omega (
        arith,
        rest,
        first,
        empty,
        total-append (takes r a) (free_at b).1 (free_all bs).1,
        total-append (gives r a) (free_at b).1 (free_all bs).1,
      ),
      omega (arith, empty, none),
    )

-- The loop has taken what the buffers hold, and they hold nothing after a failure.
abbrev Filled : Preallocated → Type 0
Filled p =
    ((r : Resource) (a : ℕ)
      → total (takes r a) p.calls ≡ total (gives r a) p.calls + held_by r a p.buffers)
    × (p.ok ≡ false → (r : Resource) (a : ℕ) → held_by r a p.buffers ≡ 0)

fill_from-Filled :
    (s : ℕ) (answers : ℕ → Answers) (done todo : List Buffers) (calls : List Call)
    → AllClear todo
    → ((r : Resource) (a : ℕ)
        → total (takes r a) calls ≡ total (gives r a) calls + held_by r a done)
    → Filled (fill_from s answers done todo calls)
unfolding fill_from
fill_from-Filled s answers done [] calls clear h = (h, λ bad. absurd (cc bad))
fill_from-Filled s answers done (b ∷ rest) calls clear h =
    let o = alloc_at (answers s) b in
    let settled = alloc_at-Settles (answers s) b clear.0 in
    let before = λ (r : Resource) (a : ℕ). Clear-HoldsNothing b clear.0 r a in
    let next = fill_from (s + 1) answers (done ++ (o.buffers ∷ [])) rest (calls ++ o.calls) in
    let upto : (r : Resource) (a : ℕ)
        → total (takes r a) (calls ++ o.calls)
          ≡ total (gives r a) (calls ++ o.calls) + held_by r a (done ++ (o.buffers ∷ [])) =
      λ r a. omega (
        arith,
        h r a,
        before r a,
        accounted settled.0 r a,
        total-append (takes r a) calls o.calls,
        total-append (gives r a) calls o.calls,
        held_by-append r a done (o.buffers ∷ []),
      ) in
    if_ind Filled o.ok next (roll_back done o.buffers rest (calls ++ o.calls))
      (λ e.
        fill_from-Filled (s + 1) answers (done ++ (o.buffers ∷ [])) rest (calls ++ o.calls) clear.1
          upto)
      (λ e.
        let left : (r : Resource) (a : ℕ)
            → held_by r a ((free_all done).0 ++ (o.buffers ∷ rest)) ≡ 0 =
          λ r a. omega (
            arith,
            (free_all-accounts r a done).1,
            settled.1 e r a,
            held_by-clear r a rest clear.1,
            held_by-append r a (free_all done).0 (o.buffers ∷ rest),
          ) in
        (
          λ r a. omega (
            arith,
            upto r a,
            held_by-append r a done (o.buffers ∷ []),
            settled.1 e r a,
            left r a,
            (free_all-accounts r a done).0,
            total-append (takes r a) (calls ++ o.calls) (free_all done).1,
            total-append (gives r a) (calls ++ o.calls) (free_all done).1,
          ),
          λ _. left,
        ))

-- When preallocate_unit_dma starts from cleared arrays, then all that it takes, whether it succeeds
-- or fails at any call into the system, is given back by free_unit_dma or was given back before, as
-- often at every address.
pub preallocate_buffers-Balanced :
    (answers : ℕ → Answers) (bs : List Buffers)
    → AllClear bs
    → let p = preallocate_buffers answers bs in Balanced (p.calls ++ (free_all p.buffers).1)
unfolding preallocate_buffers
preallocate_buffers-Balanced answers bs clear r a =
    let p = preallocate_buffers answers bs in
    let filled = fill_from-Filled 0 answers [] bs [] clear (λ r a. refl) in
    omega (
      arith,
      filled.0 r a,
      (free_all-accounts r a p.buffers).0,
      total-append (takes r a) p.calls (free_all p.buffers).1,
      total-append (gives r a) p.calls (free_all p.buffers).1,
    )

-- When preallocate_unit_dma starts from cleared arrays and fails, it has given back all that it took,
-- and the arrays hold nothing.
pub preallocate_buffers-roll_back :
    (answers : ℕ → Answers) (bs : List Buffers)
    → AllClear bs
    → (preallocate_buffers answers bs).ok ≡ false
    → let p = preallocate_buffers answers bs in
      Balanced p.calls × ((r : Resource) (a : ℕ) → held_by r a p.buffers ≡ 0)
unfolding preallocate_buffers
preallocate_buffers-roll_back answers bs clear bad =
    let filled = fill_from-Filled 0 answers [] bs [] clear (λ r a. refl) in
    (λ r a. omega (arith, filled.0 r a, filled.1 bad r a), filled.1 bad)
