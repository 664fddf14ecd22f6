-- ===== src/UnitDma/Holds.antt =====
-- What the buffers of a unit (src/unit_task.c) hold of the system: memory, mappings and entry lists.
use virtual_scsidevice.Base.{ℕ, ◌+◌, ◌≡◌, ◌==◌, ltb, ◌&&◌, not, if◌then◌else◌, List, ◌++◌, arith}
use virtual_scsidevice.DoIo.Dma.{Call}
use virtual_scsidevice.DoIo.Balance.{
  Resource, memory, mapping, entry_list, if_at, takes, gives, total, total-append,
}
use virtual_scsidevice.UnitDma.{Buffers, free_one_slot, free_one_bounce, free_pool}

abbrev pub held_at : ℕ → ℕ → ℕ
held_at a addr = if addr == 0 then 0 else if_at a addr

abbrev pub mapped_at : ℕ → ℕ → ℕ → ℕ
mapped_at a entries buf = if ltb 0 entries && not (buf == 0) then if_at a buf else 0

-- How much of a resource at the address `a` the buffers hold.
unfoldable pub holds : Resource → ℕ → Buffers → ℕ
holds memory a b = held_at a b.req_buf + held_at a b.resp_buf + held_at a b.bounce_buf
holds mapping a b =
    mapped_at a b.req_entries b.req_buf
    + mapped_at a b.resp_entries b.resp_buf
    + mapped_at a b.bounce_entries b.bounce_buf
holds entry_list a b = held_at a b.req_list + held_at a b.resp_list + held_at a b.pool

-- The calls take and give of a resource what the buffers come to hold.
abbrev pub AccountsOf : Resource → ℕ → Buffers → Buffers → List Call → Type 0
AccountsOf r a b after calls =
    holds r a b + total (takes r a) calls ≡ total (gives r a) calls + holds r a after

pub record Accounts (b after : Buffers) (calls : List Call) : Type 0 where
  pub memories : (a : ℕ) → AccountsOf memory a b after calls
  pub mappings : (a : ℕ) → AccountsOf mapping a b after calls
  pub lists : (a : ℕ) → AccountsOf entry_list a b after calls

pub accounted :
    {b after : Buffers} {calls : List Call}
    → Accounts b after calls
    → (r : Resource) (a : ℕ) → AccountsOf r a b after calls
accounted h memory = h.memories
accounted h mapping = h.mappings
accounted h entry_list = h.lists

AccountsOf-append :
    (r : Resource) (a : ℕ) (b c d : Buffers) (xs ys : List Call)
    → AccountsOf r a b c xs
    → AccountsOf r a c d ys
    → AccountsOf r a b d (xs ++ ys)
AccountsOf-append r a b c d xs ys h k =
    omega (arith, h, k, total-append (takes r a) xs ys, total-append (gives r a) xs ys)

pub Accounts-append :
    (b c d : Buffers) (xs ys : List Call)
    → Accounts b c xs
    → Accounts c d ys
    → Accounts b d (xs ++ ys)
Accounts-append b c d xs ys h k = record {
  memories = λ a. AccountsOf-append memory a b c d xs ys (h.memories a) (k.memories a);
  mappings = λ a. AccountsOf-append mapping a b c d xs ys (h.mappings a) (k.mappings a);
  lists = λ a. AccountsOf-append entry_list a b c d xs ys (h.lists a) (k.lists a);
}

pub free_one_slot-Accounts : (b : Buffers) → Accounts b (free_one_slot b).0 (free_one_slot b).1
unfolding free_one_slot holds takes gives
free_one_slot-Accounts b = record {
  memories = λ x. ground arith;
  mappings = λ x. ground arith;
  lists = λ x. ground arith;
}

pub free_one_bounce-Accounts :
    (b : Buffers) → Accounts b (free_one_bounce b).0 (free_one_bounce b).1
unfolding free_one_bounce holds takes gives
free_one_bounce-Accounts b = record {
  memories = λ x. ground arith;
  mappings = λ x. ground arith;
  lists = λ x. ground arith;
}

pub free_pool-Accounts : (b : Buffers) → Accounts b (free_pool b).0 (free_pool b).1
unfolding holds takes gives
free_pool-Accounts b = record {
  memories = λ x. ground arith;
  mappings = λ x. ground arith;
  lists = λ x. ground arith;
}
