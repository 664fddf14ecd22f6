-- ===== src/UnitDma.antt =====
-- The buffers of a unit: alloc_one_slot, alloc_one_bounce, preallocate_unit_dma and the functions
-- that free them, of src/unit_task.c. A pointer is its address, 0 for NULL.
pub mod Holds
pub mod Conserves
pub mod Balanced
pub mod Ready
use virtual_scsidevice.Base.{
  ℕ, ◌+◌, ◌==◌, ltb, Bool, true, false, ◌&&◌, not, if◌then◌else◌, List, [], ◌∷◌, ◌++◌, map,
}
use virtual_scsidevice.Pipeline.{DmaFlags}
use virtual_scsidevice.DoIo.Whole.{req_size, resp_size}
use virtual_scsidevice.DoIo.Dma.{
  Call, alloc_vec, free_vec, start_dma, end_dma, alloc_list, free_list,
}

abbrev pub bounce_size : ℕ
bounce_size = 65536

-- DMA_ReadFromRAM, the same with DMAF_NoModify, and DMAF_NoModify alone
abbrev pub outward : DmaFlags
outward = record { read_from_ram = true; no_modify = false }

abbrev pub outward_end : DmaFlags
outward_end = record { read_from_ram = true; no_modify = true }

abbrev pub inward : DmaFlags
inward = record { read_from_ram = false; no_modify = false }

abbrev pub inward_end : DmaFlags
inward_end = record { read_from_ram = false; no_modify = true }

-- the elements at one index of the unit's arrays `req_bufs` to `data_dma_pool`
pub record Buffers : Type 0 where
  pub req_buf : ℕ
  pub resp_buf : ℕ
  pub req_list : ℕ
  pub req_entries : ℕ
  pub resp_list : ℕ
  pub resp_entries : ℕ
  pub bounce_buf : ℕ
  pub bounce_phys : ℕ
  pub bounce_entries : ℕ
  pub pool : ℕ

-- What the system answers when the buffers of one index are allocated: the addresses of the memory
-- and of the lists (0 when there is none), the entry counts of StartDMA, and the physical address of
-- the first entry of the bounce buffer.
pub record Answers : Type 0 where
  pub req_buf : ℕ
  pub resp_buf : ℕ
  pub req_entries : ℕ
  pub req_list : ℕ
  pub resp_entries : ℕ
  pub resp_list : ℕ
  pub bounce_buf : ℕ
  pub bounce_entries : ℕ
  pub bounce_list : ℕ
  pub bounce_phys : ℕ
  pub pool : ℕ

-- The result of an allocation: whether it succeeded, the buffers and the calls into the system. An
-- entry list is counted by its own address.
pub record Allocated : Type 0 where
  pub ok : Bool
  pub buffers : Buffers
  pub calls : List Call

-- The calls of GetDMAList and those that return 0 are left out, but for StartDMA without entries.
-- The label `fail_resp` of alloc_one_slot.
abbrev pub fail_resp : Buffers → List Call → Allocated
fail_resp b calls = record {
  ok = false;
  buffers = record b { req_buf = 0; resp_buf = 0 };
  calls = calls ++ (free_vec b.resp_buf ∷ free_vec b.req_buf ∷ []);
}

abbrev pub after_calls : List Call → Allocated → Allocated
after_calls calls r = record r { calls = calls ++ r.calls }

-- alloc_one_slot from the response's StartDMA on
unfoldable pub map_resp : Answers → Buffers → Allocated
map_resp a b =
    let drop_req = free_list b.req_list ∷ end_dma b.req_buf req_size outward_end ∷ [] in
    let dropped = record b { req_list = 0; req_entries = 0; resp_entries = 0 } in
    let started = start_dma b.resp_buf resp_size a.resp_entries inward in
    if a.resp_entries == 0
    then fail_resp dropped (started ∷ drop_req)
    else if a.resp_list == 0
    then fail_resp (record dropped { resp_list = 0 })
        (started ∷ end_dma b.resp_buf resp_size inward_end ∷ drop_req)
    else record {
      ok = true;
      buffers = record b { resp_entries = a.resp_entries; resp_list = a.resp_list };
      calls = started ∷ alloc_list a.resp_list ∷ [];
    }

-- alloc_one_slot from the request's StartDMA on
unfoldable pub map_req : Answers → Buffers → Allocated
unfolding map_resp
map_req a b =
    let started = start_dma b.req_buf req_size a.req_entries outward in
    if a.req_entries == 0
    then fail_resp (record b { req_entries = 0 }) (started ∷ [])
    else if a.req_list == 0
    then fail_resp (record b { req_entries = 0; req_list = 0 })
        (started ∷ end_dma b.req_buf req_size outward_end ∷ [])
    else after_calls (started ∷ alloc_list a.req_list ∷ [])
        (map_resp a (record b { req_entries = a.req_entries; req_list = a.req_list }))

unfoldable pub alloc_one_slot : Answers → Buffers → Allocated
unfolding map_req
alloc_one_slot a b =
    if a.req_buf == 0
    then record { ok = false; buffers = record b { req_buf = 0 }; calls = [] }
    else if a.resp_buf == 0
    then record {
      ok = false;
      buffers = record b { req_buf = 0; resp_buf = 0 };
      calls = alloc_vec a.req_buf ∷ free_vec a.req_buf ∷ [];
    }
    else after_calls (alloc_vec a.req_buf ∷ alloc_vec a.resp_buf ∷ [])
        (map_req a (record b { req_buf = a.req_buf; resp_buf = a.resp_buf }))

-- the buffers and the calls of a part that is freed if the condition holds
abbrev pub freed_if : Bool → Call → List Call
freed_if held c = if held then c ∷ [] else []

abbrev pub cleared_if : Bool → ℕ → ℕ
cleared_if held x = if held then 0 else x

unfoldable pub free_one_slot : Buffers → Buffers × List Call
free_one_slot b =
    let resp_mapped = ltb 0 b.resp_entries && not (b.resp_buf == 0) in
    let req_mapped = ltb 0 b.req_entries && not (b.req_buf == 0) in
    (
      record b {
        resp_list = 0;
        resp_entries = cleared_if resp_mapped b.resp_entries;
        req_list = 0;
        req_entries = cleared_if req_mapped b.req_entries;
        resp_buf = 0;
        req_buf = 0;
      },
      freed_if (not (b.resp_list == 0)) (free_list b.resp_list)
          ++ (freed_if resp_mapped (end_dma b.resp_buf resp_size inward_end)
              ++ (freed_if (not (b.req_list == 0)) (free_list b.req_list)
                  ++ (freed_if req_mapped (end_dma b.req_buf req_size outward_end)
                      ++ (freed_if (not (b.resp_buf == 0)) (free_vec b.resp_buf)
                          ++ freed_if (not (b.req_buf == 0)) (free_vec b.req_buf))))),
    )

-- The mapping is ended at once: only the physical address is kept.
unfoldable pub alloc_one_bounce : Answers → Buffers → Allocated
alloc_one_bounce a b =
    let started =
      alloc_vec a.bounce_buf ∷ start_dma a.bounce_buf bounce_size a.bounce_entries outward ∷ [] in
    let ended = end_dma a.bounce_buf bounce_size outward_end in
    if a.bounce_buf == 0
    then record { ok = false; buffers = record b { bounce_buf = 0 }; calls = [] }
    else if a.bounce_entries == 0
    then record {
      ok = false;
      buffers = record b { bounce_buf = 0 };
      calls = started ++ (free_vec a.bounce_buf ∷ []);
    }
    else if a.bounce_list == 0
    then record {
      ok = false;
      buffers = record b { bounce_buf = 0; bounce_entries = 0 };
      calls = started ++ (ended ∷ free_vec a.bounce_buf ∷ []);
    }
    else record {
      ok = true;
      buffers = record b {
        bounce_buf = a.bounce_buf;
        bounce_phys = a.bounce_phys;
        bounce_entries = 0;
      };
      calls = started ++ (alloc_list a.bounce_list ∷ free_list a.bounce_list ∷ ended ∷ []);
    }

unfoldable pub free_one_bounce : Buffers → Buffers × List Call
free_one_bounce b =
    let mapped = ltb 0 b.bounce_entries && not (b.bounce_buf == 0) in
    (
      record b {
        bounce_buf = 0;
        bounce_entries = cleared_if mapped b.bounce_entries;
        bounce_phys = cleared_if mapped b.bounce_phys;
      },
      freed_if mapped (end_dma b.bounce_buf bounce_size outward_end)
          ++ freed_if (not (b.bounce_buf == 0)) (free_vec b.bounce_buf),
    )

-- a free that follows others
abbrev pub then_free : (Buffers → Buffers × List Call) → Buffers × List Call → Buffers × List Call
then_free f r = ((f r.0).0, r.1 ++ (f r.0).1)

abbrev pub free_pool : Buffers → Buffers × List Call
free_pool b = (record b { pool = 0 }, freed_if (not (b.pool == 0)) (free_list b.pool))

-- the body of the freeing loops
unfoldable pub free_at : Buffers → Buffers × List Call
unfolding free_one_slot free_one_bounce
free_at b = then_free free_one_slot (then_free free_one_bounce (free_pool b))

unfoldable pub free_all : List Buffers → List Buffers × List Call
unfolding free_at
free_all [] = ([], [])
free_all (b ∷ bs) = ((free_at b).0 ∷ (free_all bs).0, (free_at b).1 ++ (free_all bs).1)

-- the body of the loop of preallocate_unit_dma, with what it frees at its own index on a failure
abbrev pub undo_with : (Buffers → Buffers × List Call) → Allocated → Allocated
undo_with f r = record { ok = false; buffers = (f r.buffers).0; calls = r.calls ++ (f r.buffers).1 }

abbrev pub alloc_pool : Answers → Buffers → Allocated
alloc_pool a b = record {
  ok = not (a.pool == 0);
  buffers = record b { pool = a.pool };
  calls = freed_if (not (a.pool == 0)) (alloc_list a.pool);
}

-- both `free_one_bounce` and `free_one_slot`
abbrev pub free_bounce_and_slot : Buffers → Buffers × List Call
free_bounce_and_slot b = then_free free_one_slot (free_one_bounce b)

unfoldable pub alloc_at : Answers → Buffers → Allocated
unfolding alloc_one_slot alloc_one_bounce free_one_slot free_one_bounce
alloc_at a b =
    let slot = alloc_one_slot a b in
    let bounce = after_calls slot.calls (alloc_one_bounce a slot.buffers) in
    let pool = after_calls bounce.calls (alloc_pool a bounce.buffers) in
    if not slot.ok
    then slot
    else if not bounce.ok
    then undo_with free_one_slot bounce
    else if not pool.ok
    then undo_with free_bounce_and_slot pool
    else pool

pub record Preallocated : Type 0 where
  pub ok : Bool
  pub buffers : List Buffers
  pub calls : List Call

-- what a failure at the index after `done` leaves: those before it are freed, in their order
abbrev pub roll_back : List Buffers → Buffers → List Buffers → List Call → Preallocated
roll_back done b rest calls = record {
  ok = false;
  buffers = (free_all done).0 ++ (b ∷ rest);
  calls = calls ++ (free_all done).1;
}

-- The loop over the indices from `s` on; `done` are the buffers before it.
unfoldable pub fill_from :
    ℕ → (ℕ → Answers) → List Buffers → List Buffers → List Call → Preallocated
unfolding alloc_at free_all
fill_from s answers done [] calls = record { ok = true; buffers = done; calls = calls }
fill_from s answers done (b ∷ rest) calls =
    let r = alloc_at (answers s) b in
    let next = fill_from (s + 1) answers (done ++ (r.buffers ∷ [])) rest (calls ++ r.calls) in
    if r.ok then next else roll_back done r.buffers rest (calls ++ r.calls)

-- preallocate_unit_dma, without its free list and its aliases of index 0
unfoldable pub preallocate_buffers : (ℕ → Answers) → List Buffers → Preallocated
unfolding fill_from
preallocate_buffers answers bs = fill_from 0 answers [] bs []
